-- ===== src/Turns/Lines.antt =====
-- The line of a conversation: the turns that started, the one that waits to start, and the queue. Each
-- change of a conversation keeps the line in the order of submission.
use mathlib.Core.Path.{◌≡◌, refl, sym, ap, ◌∙◌, subst}
use personal_computing_space.Shared.{
  String, Bool, true, false, Option, none, some, List, [], ◌∷◌, ◌++◌, ◌==◌, ==_iff, if◌then◌else◌,
  string_eq, option_eq,
}
use personal_computing_space.Turns.Coordinator.{
  Pending, Phase, waits, begins, active, ends, Worker, Conversation, Coordinator, change, taken,
  idle, queued, start_turn, unqueue,
}
use personal_computing_space.Turns.Within.{Within, Within-append, Within-drop, append_assoc}

-- the turn that the worker took and has not started
abbrev pub held_in : Phase → Pending → List Pending
held_in waits p = p ∷ []
held_in begins p = p ∷ []
held_in active p = []
held_in ends p = []

abbrev pub held : Option Worker → List Pending
held none = []
held (some w) = held_in w.phase w.pending

-- the turns that started, the one that waits to start, and those that wait in the queue
abbrev pub line : Conversation → List Pending
line v = v.started ++ (held v.worker ++ v.queue)

abbrev pub IsInLine : Conversation → Type 0
IsInLine v = Within (line v) v.submitted

pub record IsInOrder (s : Coordinator) : Type 0 where
  pub in_line : (c : String) → Within (line (s.conversations c)) (s.conversations c).submitted

pub change-IsInOrder :
    (c : String) (f : Conversation → Conversation) (s t : Coordinator)
    → t.conversations ≡ s.conversations
    → (IsInLine (s.conversations c) → IsInLine (f (s.conversations c)))
    → IsInOrder s
    → IsInOrder (change c f t)
change-IsInOrder c f s t k h i = record { in_line = λ d. rw k (by_name d (c == d) refl) }
  where
    by_name :
        (d : String) (b : Bool)
        → (c == d) ≡ b
        → IsInLine (if b then f (s.conversations d) else s.conversations d)
    by_name d true e =
        subst (λ x. IsInLine (f (s.conversations x))) ((==_iff c d).0 e) (h (i.in_line c))
    by_name d false e = i.in_line d

pub queued-IsInLine : (p : Pending) (v : Conversation) → IsInLine v → IsInLine (queued p v)
queued-IsInLine p v w =
    subst (λ xs. Within xs (v.submitted ++ p ∷ []))
      (append_assoc v.started (held v.worker ++ v.queue) (p ∷ [])
        ∙ ap (λ xs. v.started ++ xs) (append_assoc (held v.worker) v.queue (p ∷ [])))
      (Within-append p w)

pub take-IsInLine :
    (w : Option Worker) (q : List Pending) (v : Conversation)
    → v.worker ≡ w
    → v.queue ≡ q
    → IsInLine v
    → IsInLine (taken w q v)
take-IsInLine none [] v e f i = i
take-IsInLine (some w) [] v e f i = i
take-IsInLine (some w) (p ∷ rest) v e f i = i
take-IsInLine none (p ∷ rest) v e f i =
    subst (λ xs. Within (v.started ++ xs) v.submitted) (ap (λ w. held w ++ v.queue) e ∙ f) i

-- the turn is dropped, whether it was still to start or not
pub idle-IsInLine :
    (w : Worker) (p : Phase) (v : Conversation)
    → v.worker ≡ some w
    → w.phase ≡ p
    → IsInLine v
    → IsInLine (idle v)
idle-IsInLine w p v e f i = by_phase p (
    subst (λ xs. Within (v.started ++ (xs ++ v.queue)) v.submitted)
      (ap held e ∙ ap (λ x. held_in x w.pending) f) i)
  where
    by_phase :
        (p : Phase)
        → Within (v.started ++ (held_in p w.pending ++ v.queue)) v.submitted
        → Within (v.started ++ v.queue) v.submitted
    by_phase waits i = Within-drop v.started w.pending v.queue i
    by_phase begins i = Within-drop v.started w.pending v.queue i
    by_phase active i = i
    by_phase ends i = i

pub unqueue-IsInLine :
    (p : Pending) (rest : List Pending) (v : Conversation)
    → v.queue ≡ p ∷ rest
    → IsInLine v
    → IsInLine (unqueue rest v)
unqueue-IsInLine p rest v e i =
    subst (λ xs. Within xs v.submitted) (append_assoc v.started (held v.worker) rest)
      (Within-drop (v.started ++ held v.worker) p rest (
        subst (λ xs. Within xs v.submitted)
          (ap (λ q. v.started ++ (held v.worker ++ q)) e
            ∙ sym (append_assoc v.started (held v.worker) (p ∷ rest)))
          i))

pub start-IsInLine :
    (w : Worker) (v : Conversation)
    → v.worker ≡ some w
    → w.phase ≡ begins
    → IsInLine v
    → IsInLine (start_turn w v)
start-IsInLine w v e f i =
    subst (λ xs. Within xs v.submitted) (sym (append_assoc v.started (w.pending ∷ []) v.queue))
      (subst (λ xs. Within (v.started ++ (xs ++ v.queue)) v.submitted)
        (ap held e ∙ ap (λ x. held_in x w.pending) f) i)

-- the worker goes on with the turn that it has not started
pub same_held-IsInLine :
    (w : Option Worker) (v : Conversation)
    → held w ≡ held v.worker
    → IsInLine v
    → IsInLine (record v { worker = w })
same_held-IsInLine w v e i =
    subst (λ xs. Within (v.started ++ (xs ++ v.queue)) v.submitted) (sym e) i
