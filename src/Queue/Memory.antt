-- ===== src/Queue/Memory.antt =====
-- A queue in memory and a table of texts, at which the theorems about internal/queue/client.go and
-- its users are applied. They show that what is assumed of the libraries can hold.
use text.Mathlib.TextEquality.{eq_iff}
use native.Mathlib.Decide.{ℕ_discrete}
use taskqueue_go.Prelude.{
  ◌≡◌, ◌⊎◌, inl, inr, refl, Bool, true, false, none, List, [], ◌∷◌, ◌++◌, String, ok, err, arith,
  string_dec, ◌==◌, if◌then◌else◌,
}
use mathlib.Core.Logic.{ite, if_pos}
use taskqueue_go.Models.Job.{QueueMessage}
use taskqueue_go.Queue.Backend.{
  MessageQueue, Codec, IsFaithful, IsHonest, Message, PullOutcome, queue_empty, pulled,
}

-- The messages that wait, with the names of their queues.
abbrev pub Waiting : Type 0
Waiting = List (String × String)

-- The first message of a queue, and what waits without it.
unfoldable pub take_first : String → Waiting → PullOutcome × Waiting
take_first name [] = (queue_empty, [])
take_first name ((other, text) ∷ rest) =
    let (outcome, left) = take_first name rest in
    if name == other
    then (pulled (record { id = text; receipt = text; payload = text }), rest)
    else (outcome, (other, text) ∷ left)

abbrev pub memory_queue : MessageQueue
memory_queue = record {
  Queue = Unit {0};
  State = Waiting;
  push_message = λ q name text s. (none, s ++ ((name, text) ∷ []));
  pull_message = λ q name visibility s. take_first name s;
  ack = λ q id receipt s. (none, s);
  close = λ q s. (none, s);
}

abbrev pub Waits : Waiting → String → String → Type 0
Waits [] name text = ⊥
Waits ((n, t) ∷ rest) name text = ((name ≡ n) × (text ≡ t)) ⊎ Waits rest name text

pub Waits-append :
    (s : Waiting) (n t name text : String)
    → Waits (s ++ ((n, t) ∷ [])) name text
    → ((name ≡ n) × (text ≡ t)) ⊎ Waits s name text
Waits-append [] n t name text (inl h) = inl h
Waits-append [] n t name text (inr h) = absurd h
Waits-append (x ∷ s) n t name text (inl h) = inr (inl h)
Waits-append (x ∷ s) n t name text (inr h) = elim (Waits-append s n t name text h) [
  | inl new ↦ inl new
  | inr old ↦ inr (inr old)
]

pub Waits-take_first :
    (s : Waiting) (queue name text : String)
    → Waits (take_first queue s).1 name text
    → Waits s name text
unfolding take_first
Waits-take_first [] queue name text h = h
Waits-take_first ((n, t) ∷ s) queue name text h = go (Waits-take_first s queue name text) _ h
  where
    go :
        (Waits (take_first queue s).1 name text → Waits s name text)
        → (b : Bool)
        → Waits
            (if◌then◌else◌ {A = PullOutcome × Waiting} b
              (pulled (record { id = t; receipt = t; payload = t }), s)
              ((take_first queue s).0, (n, t) ∷ (take_first queue s).1)).1
            name
            text
        → Waits ((n, t) ∷ s) name text
    go ih true k = inr k
    go ih false (inl k) = inl k
    go ih false (inr k) = inr (ih k)

pub take_first-Waits :
    (s : Waiting) (queue : String) (m : Message)
    → (take_first queue s).0 ≡ pulled m
    → Waits s queue m.payload
unfolding take_first
take_first-Waits [] queue m e = cc
take_first-Waits ((n, t) ∷ s) queue m e = elim (string_dec queue n) [
  | yes here ↦ inl (here, ground arith)
  | no other ↦ inr (take_first-Waits s queue m (ground arith))
]

abbrev pub memory_queue-IsHonest : IsHonest memory_queue
memory_queue-IsHonest = record {
  HoldsText = Waits;
  push-HoldsText = λ q name text s name' text' h. Waits-append s name text name' text' h;
  pull-HoldsText = λ q name visibility s name' text h. Waits-take_first s name name' text h;
  ack-HoldsText = λ q id receipt s name text h. h;
  pulled-HoldsText = λ q name visibility s m e. take_first-Waits s name m e;
}

pub QueueMessage-discrete : Discrete QueueMessage
QueueMessage-discrete = hlevel (ℕ_discrete, string_dec)

-- A codec that knows two messages.
module _ (a b : QueueMessage) where
  unfoldable pub two_messages : Codec
  two_messages = record {
    marshal = λ m.
        ite (QueueMessage-discrete m a) (ok "a")
          (ite (QueueMessage-discrete m b) (ok "b") (err "unknown message"));
    unmarshal =
        λ text. if text == "a" then ok a else if text == "b" then ok b else err "unknown text";
  }

  pub marshal-first : (two_messages).marshal a ≡ ok "a"
  unfolding two_messages
  marshal-first = if_pos (QueueMessage-discrete a a) refl _ _

  pub two_messages-IsFaithful : IsFaithful two_messages
  unfolding two_messages
  two_messages-IsFaithful = record { unmarshal-marshal = λ m text h. go m text h }
    where
      go :
          (m : QueueMessage) (text : String)
          → (two_messages).marshal m ≡ ok text
          → (two_messages).unmarshal text ≡ ok m
      go m text h = ground (arith, eq_iff "a" "b")
