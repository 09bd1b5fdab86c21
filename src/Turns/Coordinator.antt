-- ===== src/Turns/Coordinator.antt =====
-- `DriverTurnCoordinator`: its queues, its workers and the lane that they share, as the steps that its
-- coroutines take from one `await` to the next.
use personal_computing_space.Shared.{
  String, Bool, true, false, not, ◌||◌, Option, none, some, List, [], ◌∷◌, ◌++◌, ◌==◌,
  if◌then◌else◌, string_eq, option_eq,
}
use personal_computing_space.Shared.Lists.{any, keep}

-- A _PendingTurn; whether it is cancelled is kept with the worker that took it.
pub record Pending : Type 0 where
  pub request_id : String
  pub conversation_ref : String
  pub prompt : String
  pub claim_token : String

-- Where the worker of a conversation is with the turn that it took: it waits for the lane, it has the lane
-- and makes the context, the turn is active, or it is over and the provider ends it.
pub data Phase : Type 0 where
  waits begins active ends : Phase

pub record Worker : Type 0 where
  pub pending : Pending
  pub phase : Phase
  pub cancelled : Bool

-- The entries of `_queues`, `_workers`, `_waiting` and `_active` for one conversation. `submitted` and
-- `started` are the turns that were queued and those that became active, in order.
pub record Conversation : Type 0 where
  pub queue : List Pending
  pub worker : Option Worker
  pub submitted : List Pending
  pub started : List Pending

-- `lane` is the conversation whose worker holds the lock; the other two are the request ids in
-- `_completed` and `_pending_by_request`.
pub record Coordinator : Type 0 where
  pub conversations : String → Conversation
  pub lane : Option String
  pub completed : List String
  pub pending : List String

-- What `claim_message` answers: the claim is the Driver's (or there is no client to ask), the message is
-- over, or another Driver has it.
pub data Claim : Type 0 where
  granted over elsewhere : Claim

pub data Step : Type 0 where
  submit : Pending → Claim → Step
  take enter activate abort leave interrupt : (conversation_ref : String) → Step
  finish : (conversation_ref : String) (returned : Bool) → Step

abbrev pub has : String → List String → Bool
has id = any λ j. j == id

-- pop(request_id, None)
abbrev pub without : String → List String → List String
without id = keep λ j. not (j == id)

abbrev pub change : String → (Conversation → Conversation) → Coordinator → Coordinator
change c f s = record s {
  conversations = λ d. if c == d then f (s.conversations d) else s.conversations d;
}

abbrev pub remember : String → Coordinator → Coordinator
remember id s = record s { pending = id ∷ s.pending }

abbrev pub queued : Pending → Conversation → Conversation
queued p v = record v { queue = v.queue ++ p ∷ []; submitted = v.submitted ++ p ∷ [] }

-- `submit`, once the claim is known
abbrev pub claimed : Pending → Claim → Coordinator → Coordinator
claimed p granted s = change p.conversation_ref (queued p) (remember p.request_id s)
claimed p over s = record s { completed = p.request_id ∷ s.completed }
claimed p elsewhere s = s

unfoldable pub on_submit : Pending → Claim → Coordinator → Coordinator
on_submit p claim s =
    if has p.request_id s.completed || has p.request_id s.pending then s else claimed p claim s

-- the worker that is free takes the head of the queue
abbrev pub taken : Option Worker → List Pending → Conversation → Conversation
taken none (p ∷ rest) v = record v {
  queue = rest;
  worker = some (record { pending = p; phase = waits; cancelled = false });
}
taken _ _ v = v

abbrev pub take_next : Conversation → Conversation
take_next v = taken v.worker v.queue v

abbrev pub in_phase : Worker → Phase → Conversation → Conversation
in_phase w phase v = record v { worker = some (record w { phase = phase }) }

abbrev pub idle : Conversation → Conversation
idle v = record v { worker = none }

-- _pending_by_request.pop(request_id, None)
abbrev pub forget : String → Coordinator → Coordinator
forget id s = record s { pending = without id s.pending }

-- the turn becomes active
abbrev pub start_turn : Worker → Conversation → Conversation
start_turn w v = record (in_phase w active v) { started = v.started ++ w.pending ∷ [] }

abbrev pub unqueue : List Pending → Conversation → Conversation
unqueue rest v = record v { queue = rest }

-- _completed[request_id] = result, if there is one
abbrev pub complete_if : Bool → String → Coordinator → Coordinator
complete_if returned id s = record s {
  completed = if returned then id ∷ s.completed else s.completed;
}

-- the worker is through with the turn, without the lane or with it
abbrev pub drop_turn : String → Worker → Coordinator → Coordinator
drop_turn c w s = change c idle (forget w.pending.request_id s)

abbrev pub release_lane : String → Worker → Coordinator → Coordinator
release_lane c w s = record (drop_turn c w s) { lane = none }

-- the lane is given to a worker that waits; a cancelled turn ends there
abbrev pub entered : String → Option String → Option Worker → Coordinator → Coordinator
entered c none (some w) s = elim w.phase [
  | waits ↦
      if w.cancelled
      then drop_turn c w s
      else record (change c (in_phase w begins) s) { lane = some c }
  | begins ↦ s
  | active ↦ s
  | ends ↦ s
]
entered c _ _ s = s

abbrev pub activated : String → Option Worker → Coordinator → Coordinator
activated c none s = s
activated c (some w) s = elim w.phase [
  | waits ↦ s
  | begins ↦ change c (start_turn w) s
  | active ↦ s
  | ends ↦ s
]

-- `begin_turn` raised
abbrev pub aborted : String → Option Worker → Coordinator → Coordinator
aborted c none s = s
aborted c (some w) s = elim w.phase [
  | waits ↦ s
  | begins ↦ release_lane c w s
  | active ↦ s
  | ends ↦ s
]

abbrev pub finished : String → Bool → Option Worker → Coordinator → Coordinator
finished c returned none s = s
finished c returned (some w) s = elim w.phase [
  | waits ↦ s
  | begins ↦ s
  | active ↦ change c (in_phase w ends) (complete_if returned w.pending.request_id s)
  | ends ↦ s
]

-- `end_turn` is over
abbrev pub left : String → Option Worker → Coordinator → Coordinator
left c none s = s
left c (some w) s = elim w.phase [ waits ↦ s | begins ↦ s | active ↦ s | ends ↦ release_lane c w s ]

abbrev pub cancel_worker : Worker → Conversation → Conversation
cancel_worker w v = record v { worker = some (record w { cancelled = true }) }

abbrev pub is_active : Option Worker → Bool
is_active none = false
is_active (some w) = elim w.phase [ waits ↦ false | begins ↦ false | active ↦ true | ends ↦ false ]

-- the turn is in `_waiting`, unless it was cancelled
abbrev pub is_waiting : Phase → Bool
is_waiting waits = true
is_waiting begins = true
is_waiting _ = false

-- the turn that waits for the lane, where the queue is empty
abbrev pub interrupt_waiting : String → Option Worker → Coordinator → Coordinator
interrupt_waiting c none s = s
interrupt_waiting c (some w) s =
    if w.cancelled || not (is_waiting w.phase)
    then s
    else change c (cancel_worker w) (forget w.pending.request_id s)

abbrev pub interrupt_queued : String → Coordinator → List Pending → Coordinator
interrupt_queued c s [] = interrupt_waiting c (s.conversations c).worker s
interrupt_queued c s (p ∷ rest) = change c (unqueue rest) (forget p.request_id s)

-- an active turn is only asked to stop
unfoldable pub on_interrupt : String → Coordinator → Coordinator
on_interrupt c s =
    if is_active (s.conversations c).worker
    then s
    else interrupt_queued c s (s.conversations c).queue

-- One step; one that is not possible changes nothing.
unfoldable pub step : Step → Coordinator → Coordinator
step (submit p claim) s = on_submit p claim s
step (take c) s = change c take_next s
step (enter c) s = entered c s.lane (s.conversations c).worker s
step (activate c) s = activated c (s.conversations c).worker s
step (abort c) s = aborted c (s.conversations c).worker s
step (finish c returned) s = finished c returned (s.conversations c).worker s
step (leave c) s = left c (s.conversations c).worker s
step (interrupt c) s = on_interrupt c s

unfoldable pub steps : List Step → Coordinator → Coordinator
steps [] s = s
steps (x ∷ xs) s = steps xs (step x s)

abbrev pub new_coordinator : Coordinator
new_coordinator = record {
  conversations = λ c. record { queue = []; worker = none; submitted = []; started = [] };
  lane = none;
  completed = [];
  pending = [];
}
