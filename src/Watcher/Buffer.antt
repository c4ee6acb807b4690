-- ===== src/Watcher/Buffer.antt =====
-- The events in the buffer of src/flexetl/watcher.cpp.
use flexetl.Prelude.{
  ℕ, zero, suc, ◌+◌, ◌^◌, ◌≤◌, ◌<◌, ◌≡◌, refl, ap, sym, ◌∙◌, Bool, true, false, ◌||◌, List, [], ◌∷◌,
  ◌++◌, ◌==◌, ltb, if◌then◌else◌, length, drop, arith, All, length-append, inl, inr, Bool-cases,
  ge→ltb,
}
use flexetl.Prelude.Words.{Bytes, to_le, of_le-to_le}
use flexetl.Result.{ok, fault}
use flexetl.ClickTbl.Load.{c_string}
use flexetl.Watcher.{Watches, handle, word_at, process, Answer, bytes, life_proc}

-- `struct inotify_event`; `field` is the name and the zero bytes behind it, or empty.
pub record Event : Type 0 where
  pub wd : ℕ
  pub mask : ℕ
  pub cookie : ℕ
  pub field : Bytes

unfoldable pub encode : Event → Bytes
encode e =
    to_le 4 e.wd ++ (to_le 4 e.mask ++ (to_le 4 e.cookie ++ (to_le 4 (length e.field) ++ e.field)))

unfoldable pub encode_all : List Event → Bytes
encode_all [] = []
encode_all (e ∷ events) = encode e ++ encode_all events

abbrev pub has_zero : Bytes → Bool
has_zero [] = false
has_zero (b ∷ s) = b == 0 || has_zero s

-- The kernel ends each name with a zero byte.
abbrev pub IsEvent : Event → Type 0
IsEvent e =
    (e.wd < 2 ^ 32)
    × (e.mask < 2 ^ 32)
    × (e.cookie < 2 ^ 32)
    × (length e.field < 2 ^ 32)
    × ((length e.field == 0 || has_zero e.field) ≡ true)

-- What is to happen for each event.
unfoldable pub handle_all : {S : Type 0} → Watches S → List Event → S → S
handle_all watches [] s = s
handle_all watches (e ∷ events) s =
    handle_all watches events (handle watches e.wd e.mask (length e.field) (c_string e.field) s)

c_string-append : (s t : Bytes) → has_zero s ≡ true → c_string (s ++ t) ≡ c_string s
unfolding c_string
c_string-append [] t h = absurd cc
c_string-append (b ∷ s) t h = elim (Bool-cases (b == 0)) [
  | inl e ↦ rw (c_string, e) refl
  | inr e ↦ rw (c_string, e) (ap (λ (x : Bytes). b ∷ x) (c_string-append s t (rw e at h)))
]

drop-append : (s t : Bytes) → drop (length s) (s ++ t) ≡ t
drop-append [] t = refl
drop-append (b ∷ s) t = drop-append s t

drop-add : (a b : ℕ) (s : Bytes) → drop (a + b) s ≡ drop b (drop a s)
drop-add zero b s = let e : 0 + b ≡ b = omega arith in ap (λ (n : ℕ). drop n s) e
drop-add (suc a) zero [] = let e : suc a + 0 ≡ suc a = omega arith in ap (λ (n : ℕ). drop n []) e
drop-add (suc a) (suc b) [] =
    let e : suc a + suc b ≡ suc (a + suc b) = omega arith in ap (λ (n : ℕ). drop n []) e
drop-add (suc a) b (c ∷ s) =
    let e : suc a + b ≡ suc (a + b) = omega arith in
    ap (λ (n : ℕ). drop n (c ∷ s)) e ∙ drop-add a b s

ended_name :
    (b : ℕ) (field : Bytes)
    → (length (b ∷ field) == 0 || has_zero (b ∷ field)) ≡ true
    → has_zero (b ∷ field) ≡ true
ended_name b field h = ground (arith, h)

module _ {S : Type 0} (watches : Watches S) where
  handle_name :
      (wd mask : ℕ) (field rest : Bytes) (s : S)
      → (length field == 0 || has_zero field) ≡ true
      → handle watches wd mask (length field) (c_string (field ++ rest)) s
        ≡ handle watches wd mask (length field) (c_string field) s
  unfolding handle
  handle_name wd mask [] rest s h = refl
  handle_name wd mask (b ∷ field) rest s h =
      ap (λ (name : Bytes). handle watches wd mask (length (b ∷ field)) name s)
        (c_string-append (b ∷ field) rest (ended_name b field h))

  process_step :
      (f : ℕ) (b : Bool) (w m l wd mask len : ℕ) (buffer rest name : Bytes) (s : S)
      → b ≡ false
      → w ≡ wd
      → m ≡ mask
      → l ≡ len
      → buffer ≡ rest
      → (if b then fault else process watches f buffer (handle watches w m l name s))
        ≡ process watches f rest (handle watches wd mask len name s)
  process_step f b w m l wd mask len buffer rest name s eb ew em el er =
      rw (eb, ew, em, el, er) refl

  process-encode :
      (f : ℕ) (e : Event) (rest : Bytes) (s : S)
      → IsEvent e
      → process watches (suc f) (encode e ++ rest) s
        ≡ process watches f rest (handle watches e.wd e.mask (length e.field) (c_string e.field) s)
  unfolding process encode to_le
  process-encode f e rest s (wd, mask, cookie, len, ended) =
      let event = encode e ++ rest in
      let at_0 : word_at 0 event ≡ e.wd = of_le-to_le 4 e.wd wd in
      let at_4 : word_at 4 event ≡ e.mask = of_le-to_le 4 e.mask mask in
      let at_12 : word_at 12 event ≡ length e.field = of_le-to_le 4 (length e.field) len in
      let whole : ltb (length event) 16 ≡ false = ge→ltb (length event) 16 (omega arith) in
      let behind : drop (16 + word_at 12 event) event ≡ rest =
        ap (λ (n : ℕ). drop (16 + n) event) at_12
        ∙ drop-add 16 (length e.field) event
        ∙ drop-append e.field rest in
      process_step f (ltb (length event) 16) (word_at 0 event) (word_at 4 event) (word_at 12 event)
        e.wd e.mask (length e.field) (drop (16 + word_at 12 event) event) rest
        (c_string (e.field ++ rest)) s whole at_0 at_4 at_12 behind
      ∙ ap (process watches f rest) (handle_name e.wd e.mask e.field rest s ended)

  -- Each event in the buffer makes its call, in order, whatever follows it there.
  process-encode_all :
      (f : ℕ) (events : List Event) (s : S)
      → All IsEvent events
      → length events ≤ f
      → process watches f (encode_all events) s ≡ ok (handle_all watches events s)
  unfolding encode_all handle_all process
  process-encode_all f [] s good enough = refl
  process-encode_all zero (e ∷ events) s good enough = absurd (omega arith)
  process-encode_all (suc f) (e ∷ events) s (h, good) enough =
      process-encode f e (encode_all events) s h
      ∙ process-encode_all f events
          (handle watches e.wd e.mask (length e.field) (c_string e.field) s) good (omega arith)

length-encode : (e : Event) → 1 ≤ length (encode e)
unfolding encode to_le
length-encode e = omega arith

length-encode_all : (events : List Event) → length events ≤ length (encode_all events)
unfolding encode_all
length-encode_all [] = omega arith
length-encode_all (e ∷ events) =
    omega (
      arith,
      length-encode e,
      length-encode_all events,
      length-append (encode e) (encode_all events),
    )

-- What is read, a list of events each time.
abbrev pub all_of : List (List Event) → List Event
all_of [] = []
all_of (events ∷ batches) = events ++ all_of batches

abbrev pub answers_of : List (List Event) → List Answer
answers_of [] = []
answers_of (events ∷ batches) = bytes (encode_all events) ∷ answers_of batches

module _ {S : Type 0} (watches : Watches S) where
  handle_all-append :
      (a b : List Event) (s : S)
      → handle_all watches (a ++ b) s ≡ handle_all watches b (handle_all watches a s)
  unfolding handle_all
  handle_all-append [] b s = refl
  handle_all-append (e ∷ a) b s =
      handle_all-append a b (handle watches e.wd e.mask (length e.field) (c_string e.field) s)

  life_proc-process :
      (buffer : Bytes) (answers : List Answer) (s s' : S)
      → process watches (length buffer) buffer s ≡ ok s'
      → life_proc watches (bytes buffer ∷ answers) s ≡ life_proc watches answers s'
  unfolding life_proc
  life_proc-process buffer answers s s' e = rw (life_proc, e) refl

  -- Whatever the watches and their callbacks are, and however the kernel's events are cut into reads
  -- between two of them: each event makes exactly its call, in order, and the loop goes on.
  pub life_proc-handle_all :
      (batches : List (List Event)) (s : S)
      → All (λ (events : List Event). All IsEvent events) batches
      → life_proc watches (answers_of batches) s ≡ ok (handle_all watches (all_of batches) s, true)
  unfolding life_proc handle_all
  life_proc-handle_all [] s good = refl
  life_proc-handle_all (events ∷ batches) s (here, good) =
      life_proc-process (encode_all events) (answers_of batches) s (handle_all watches events s) (
        process-encode_all watches (length (encode_all events)) events s here
          (length-encode_all events))
      ∙ life_proc-handle_all batches (handle_all watches events s) good
      ∙ ap (λ (x : S). ok (x, true)) (sym (handle_all-append events (all_of batches) s))
