-- ===== src/FbServer/Keys/History.antt =====
-- The array of pressed keys over histories of presses and releases.
use chroagh.Base.{
  ℕ, suc, ◌+◌, ◌≤◌, ◌<◌, ◌≡◌, refl, ap, ◌∙◌, inl, inr, Bool, true, false, Bool-cases, if◌then◌else◌,
  lt→ltb, ltb→lt, ltb, aborted, List, [], ◌∷◌, ◌++◌, arith, length, length-append, M, pure, done,
  ◌>>=◌,
}
use chroagh.FbServer.Keys.{
  KeyButton, KeyButtonType, mouse, keyboard, Keys, is_key, capacity, kb_add, kb_remove,
  kb_release_all, release_loop, Release, button, key, find_pressed, remove_loop, release,
}
use chroagh.FbServer.Keys.Set.{
  is, count, count-append, is_key→same, find_pressed-true, find_pressed-false,
}
use chroagh.FbServer.Keys.Removal.{count-removal, length-remove_loop}

pub data Operation : Type 0 where
  press : KeyButton → Operation
  let_go : KeyButton → Operation
  let_all_go : Operation

-- A history has its newest operation first.
abbrev pub perform : Operation → M Keys (Unit {0})
perform (press k) = kb_add k
perform (let_go k) = kb_remove k
perform let_all_go = kb_release_all

abbrev pub run : List Operation → M Keys (Unit {0})
run [] = pure tt
run (o ∷ h) = run h >>= λ _. perform o

-- 1 if the last operation on the key, or on all keys, was a press.
abbrev pub down : List Operation → KeyButton → ℕ
down [] x = 0
down (press k ∷ h) x = if is_key k x then 1 else down h x
down (let_go k ∷ h) x = if is_key k x then 0 else down h x
down (let_all_go ∷ h) x = 0

abbrev pub presses : List Operation → ℕ
presses [] = 0
presses (press k ∷ h) = suc (presses h)
presses (let_go k ∷ h) = presses h
presses (let_all_go ∷ h) = presses h

abbrev pub empty : Keys
empty = record { pressed = []; events = [] }

-- What holds after the history.
pub record Holds (h : List Operation) (s : Keys) : Type 0 where
  pub set : (x : KeyButton) → count x s.pressed ≡ down h x
  pub few : length s.pressed ≤ presses h

down_le : (h : List Operation) (x : KeyButton) → down h x ≤ 1
down_le [] x = omega arith
down_le (press k ∷ h) x = ground (arith, down_le h x)
down_le (let_go k ∷ h) x = ground (arith, down_le h x)
down_le (let_all_go ∷ h) x = omega arith

-- Entering the key, in an array with room, unless it is there.
add_count :
    (h : List Operation) (k x : KeyButton) (ps : List KeyButton)
    → ((y : KeyButton) → count y ps ≡ down h y)
    → count x (if find_pressed k ps then ps else ps ++ (k ∷ [])) ≡ down (press k ∷ h) x
add_count h k x ps holds = elim (Bool-cases (is_key k x)) [
  | inl same ↦
      let e : count k ps ≡ count x ps = ap (λ t. count t ps) (is_key→same k x same) in
      elim (Bool-cases (find_pressed k ps)) [
        | inl found ↦
            rw (same, found) (omega (arith, e, find_pressed-true k ps found, holds x, down_le h x))
        | inr absent ↦
            rw (same, absent)
              (count-append x ps (k ∷ [])
                ∙ rw same (omega (arith, e, find_pressed-false k ps absent)))
      ]
  | inr other ↦ elim (Bool-cases (find_pressed k ps)) [
    | inl found ↦ rw (other, found) (holds x)
    | inr absent ↦
        rw (other, absent) (count-append x ps (k ∷ []) ∙ rw other (omega (arith, holds x)))
  ]
]

entered_lem :
    (found : Bool) (s : Keys) (more : List KeyButton)
    → ◌≡◌ {A = Keys}
        (if found then s else record s { pressed = s.pressed ++ more })
        (record s { pressed = if found then s.pressed else s.pressed ++ more })
entered_lem true s more = refl
entered_lem false s more = refl

press-Holds :
    (h : List Operation) (k : KeyButton) (s : Keys)
    → Holds h s
    → length s.pressed < capacity
    → (s' : Keys) × (kb_add k s ≡ done (tt, s')) × Holds (press k ∷ h) s'
unfolding kb_add
press-Holds h k s holds room =
    let entered = if find_pressed k s.pressed then s.pressed else s.pressed ++ (k ∷ []) in
    (
      record s { pressed = entered },
      rw (lt→ltb (length s.pressed) capacity room)
          (ap (λ t. done (tt, t)) (entered_lem (find_pressed k s.pressed) s (k ∷ []))),
      record {
        set = λ x. add_count h k x s.pressed holds.set;
        few = elim (Bool-cases (find_pressed k s.pressed)) [
          | inl found ↦ rw found (omega (arith, holds.few))
          | inr absent ↦ rw absent (omega (arith, holds.few, length-append s.pressed (k ∷ [])))
        ];
      },
    )

let_go-Holds :
    (h : List Operation) (k : KeyButton) (s : Keys)
    → Holds h s
    → (s' : Keys) × (kb_remove k s ≡ done (tt, s')) × Holds (let_go k ∷ h) s'
unfolding kb_remove
let_go-Holds h k s holds = (
  record s { pressed = remove_loop 0 k s.pressed s.pressed },
  refl,
  record {
    set = λ x. ground (arith, count-removal x k s.pressed, holds.set x, down_le h x);
    few = omega (arith, length-remove_loop 0 k s.pressed s.pressed, holds.few);
  },
)

all_released :
    (s : Keys)
    → kb_release_all s
      ≡ done (tt, record s { pressed = []; events = release_loop s.pressed s.events })
unfolding kb_release_all
all_released s = refl

-- With no more presses than the array has entries, no history aborts, and after it the array holds
-- each key that is down once, and no other.
pub run-Holds :
    (h : List Operation)
    → presses h ≤ capacity
    → (s : Keys) × (run h empty ≡ done (tt, s)) × Holds h s
run-Holds [] fits = (empty, refl, record { set = λ x. refl; few = omega arith })
run-Holds (press k ∷ h) fits =
    let (s, r, holds) = run-Holds h (omega arith) in
    let (s', r', holds') = press-Holds h k s holds (omega (arith, holds.few)) in
    (s', rw (r, ◌>>=◌) r', holds')
run-Holds (let_go k ∷ h) fits =
    let (s, r, holds) = run-Holds h fits in
    let (s', r', holds') = let_go-Holds h k s holds in (s', rw (r, ◌>>=◌) r', holds')
run-Holds (let_all_go ∷ h) fits =
    let (s, r, holds) = run-Holds h fits in
    (
      record s { pressed = []; events = release_loop s.pressed s.events },
      rw (r, ◌>>=◌) (all_released s),
      record { set = λ x. refl; few = omega arith },
    )

-- How a history ends: with the keys that are down, or with an abort when a key was pressed while the
-- array was full.
pub data Ends (h : List Operation) : Type 0 where
  kept : (s : Keys) → run h empty ≡ done (tt, s) → Holds h s → Ends h
  overfull :
      (k : KeyButton) (h1 h0 : List Operation) (s : Keys)
      → h ≡ h1 ++ (press k ∷ h0)
      → run h0 empty ≡ done (tt, s)
      → Holds h0 s
      → capacity ≤ length s.pressed
      → run h empty ≡ aborted
      → Ends h

pressed_lem :
    (h : List Operation) (k : KeyButton) (s : Keys)
    → run h empty ≡ done (tt, s)
    → Holds h s
    → Ends (press k ∷ h)
unfolding kb_add
pressed_lem h k s r holds = elim (Bool-cases (ltb (length s.pressed) capacity)) [
  | inl room ↦
      let (s', r', holds') = press-Holds h k s holds (ltb→lt (length s.pressed) capacity room) in
      kept s' (rw (r, ◌>>=◌) r') holds'
  | inr full ↦ overfull k [] h s refl r holds (ground (arith, full)) (rw (r, ◌>>=◌, full) refl)
]

ended_with :
    (h : List Operation) (o : Operation)
    → ((s : Keys) → run h empty ≡ done (tt, s) → Holds h s → Ends (o ∷ h))
    → Ends h
    → Ends (o ∷ h)
ended_with h o next (kept s r holds) = next s r holds
ended_with h o next (overfull k h1 h0 s e r holds full a) =
    overfull k (o ∷ h1) h0 s (ap (λ t. o ∷ t) e) r holds full (rw (a, ◌>>=◌) refl)

-- After every history that starts with no key down, the array holds each key that is down once, and
-- no other; but if a key is pressed when the array holds each key that is down once, and no other,
-- and these are at least 256, the program aborts.
pub run-Ends : (h : List Operation) → Ends h
run-Ends [] = kept empty refl (record { set = λ x. refl; few = omega arith })
run-Ends (press k ∷ h) =
    ended_with h (press k) (λ s r holds. pressed_lem h k s r holds) (run-Ends h)
run-Ends (let_go k ∷ h) =
    ended_with h (let_go k)
      (λ s r holds.
        let (s', r', holds') = let_go-Holds h k s holds in kept s' (rw (r, ◌>>=◌) r') holds')
      (run-Ends h)
run-Ends (let_all_go ∷ h) =
    ended_with h let_all_go
      (λ s r holds.
        kept (record s { pressed = []; events = release_loop s.pressed s.events })
          (rw (r, ◌>>=◌) (all_released s)) (record { set = λ x. refl; few = omega arith }))
      (run-Ends h)

-- The release events of a key.
abbrev pub is_release : KeyButton → Release → ℕ
is_release x (button c) = is x (record { type = mouse; code = c })
is_release x (key c) = is x (record { type = keyboard; code = c })

abbrev pub released : KeyButton → List Release → ℕ
released x [] = 0
released x (e ∷ es) = is_release x e + released x es

released_once :
    (x : KeyButton) (t : KeyButtonType) (c : ℕ)
    → let p : KeyButton = record { type = t; code = c } in is_release x (release p) ≡ is x p
released_once x mouse c = refl
released_once x keyboard c = refl

release_loop-count :
    (x : KeyButton) (ps : List KeyButton) (es : List Release)
    → released x (release_loop ps es) ≡ count x ps + released x es
unfolding release_loop
release_loop-count x [] es = omega arith
release_loop-count x (p ∷ ps) es =
    omega (arith, release_loop-count x ps (release p ∷ es), released_once x p.type p.code)

-- Each pressed key is released, as often as the array holds it, and nothing else is; then no key is
-- pressed.
pub kb_release_all_lem :
    (s : Keys)
    → (s' : Keys) × (kb_release_all s ≡ done (tt, s'))
      × (s'.pressed ≡ [])
      × ((x : KeyButton) → released x s'.events ≡ released x s.events + count x s.pressed)
unfolding kb_release_all
kb_release_all_lem s = (
  record s { pressed = []; events = release_loop s.pressed s.events },
  refl,
  refl,
  λ x. omega (arith, release_loop-count x s.pressed s.events),
)
