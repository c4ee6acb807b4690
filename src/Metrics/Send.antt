-- ===== src/Metrics/Send.antt =====
-- src/stem/metrics/metrics.cpp: `sendProc`, by rounds of its loop. The socket is the network's.
use flexetl.Prelude.{
  ℕ, ◌+◌, ◌≡◌, refl, ◌∙◌, Bool, true, false, not, ◌&&◌, List, [], ◌∷◌, ◌++◌, Option, none, some,
  leb, if◌then◌else◌, arith, inl, inr, Option-cases,
}
use flexetl.Prelude.Words.{Bytes}
use flexetl.StdMap.{same_key}
use flexetl.Queue.{dequeue, one_if, times, times-append, times-dequeue}

-- Whether `socket_` is closed, `connectCounter`, `m_sendQueue`, and the texts that were written to the
-- socket, the last first.
pub record State : Type 0 where
  pub closed : Bool
  pub connect_counter : ℕ
  pub send_queue : List Bytes
  pub written : List Bytes

-- What a round meets: the texts that `agregateProc` enqueued before it, whether `ResetConnection`
-- succeeds, the entry that the queue gives and whether `Write` succeeds.
pub record Answers : Type 0 where
  pub arrivals : List Bytes
  pub connects : Bool
  pub pick : Option ℕ
  pub writes : Bool

-- `retryTimeout * 2`: a minute of rounds.
abbrev connect_counter_limit : ℕ
connect_counter_limit = 120

unfoldable pub connect : Bool → State → State
connect connects s =
    if s.closed && leb connect_counter_limit s.connect_counter
    then record s { connect_counter = 0; closed = not connects }
    else s

-- A text that could not be written goes back to the end of the queue.
unfoldable pub write : Bool → Bytes → List Bytes → State → State
write true metric rest s = record s { send_queue = rest; written = metric ∷ s.written }
write false metric rest s = record s {
  send_queue = rest ++ metric ∷ [];
  closed = true;
  connect_counter = connect_counter_limit;
}

unfoldable pub send_next : Answers → State → State
send_next a s = elim (dequeue a.pick s.send_queue) [
  | none ↦ s
  | some (metric, rest) ↦ write a.writes metric rest s
]

unfoldable pub round : Answers → State → State
round a s =
    let s₁ = connect a.connects (record s { send_queue = s.send_queue ++ a.arrivals }) in
    if s₁.closed then record s₁ { connect_counter = s₁.connect_counter + 1 } else send_next a s₁

unfoldable pub rounds : List Answers → State → State
rounds [] s = s
rounds (a ∷ answers) s = rounds answers (round a s)

-- How often a text waits in the queue or was written, and arrives.
abbrev pub known : Bytes → State → ℕ
known k s = times k s.send_queue + times k s.written

abbrev pub arrived : Bytes → List Answers → ℕ
arrived k [] = 0
arrived k (a ∷ answers) = times k a.arrivals + arrived k answers

known-write :
    (k : Bytes) (b : Bool) (metric : Bytes) (rest : List Bytes) (s : State)
    → known k (write b metric rest s)
      ≡ one_if (same_key k metric) + times k rest + times k s.written
unfolding write
known-write k true metric rest s = omega arith
known-write k false metric rest s = omega (arith, times-append k rest (metric ∷ []))

known-send_next : (k : Bytes) (a : Answers) (s : State) → known k (send_next a s) ≡ known k s
unfolding send_next
known-send_next k a s = elim (Option-cases (dequeue a.pick s.send_queue)) [
  | inl e ↦ rw (e, send_next) refl
  | inr ((metric, rest), e) ↦
      rw (e, send_next)
        (omega (
          arith,
          known-write k a.writes metric rest s,
          times-dequeue k a.pick s.send_queue metric rest e,
        ))
]

known-connect : (k : Bytes) (b : Bool) (s : State) → known k (connect b s) ≡ known k s
unfolding connect
known-connect k b s = ground arith

known-if :
    (k : Bytes) (b : Bool) (x y : State) (n : ℕ)
    → known k x ≡ n
    → known k y ≡ n
    → known k (if b then x else y) ≡ n
known-if k true x y n h g = h
known-if k false x y n h g = g

known-round :
    (k : Bytes) (a : Answers) (s : State) → known k (round a s) ≡ known k s + times k a.arrivals
unfolding round
known-round k a s =
    let s₀ = record s { send_queue = s.send_queue ++ a.arrivals } in
    let s₁ = connect a.connects s₀ in
    let kept : known k s₁ ≡ known k s + times k a.arrivals =
      omega (arith, known-connect k a.connects s₀, times-append k s.send_queue a.arrivals) in
    known-if k s₁.closed (record s₁ { connect_counter = s₁.connect_counter + 1 }) (send_next a s₁)
      (known k s + times k a.arrivals) kept (known-send_next k a s₁ ∙ kept)

-- Over any run, whatever fails: each text that arrives is afterwards in the queue or was written,
-- as often as it arrived.
pub known-rounds :
    (k : Bytes) (answers : List Answers) (s : State)
    → known k (rounds answers s) ≡ known k s + arrived k answers
unfolding rounds
known-rounds k [] s = omega arith
known-rounds k (a ∷ answers) s =
    omega (arith, known-rounds k answers (round a s), known-round k a s)
