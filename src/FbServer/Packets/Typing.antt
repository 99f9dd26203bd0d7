-- ===== src/FbServer/Packets/Typing.antt =====
-- Sequences of packets with input.
use chroagh.Base.{
  ℕ, ◌≤◌, ◌≡◌, refl, sym, ap, ◌∙◌, none, some, List, [], ◌∷◌, ◌++◌, length, Outcome, M, done,
  out_of_fuel, ◌>>=◌, arith,
}
use chroagh.FbServer.Keys.{mouse, keyboard, Keys, capacity}
use chroagh.FbServer.Keys.History.{
  Operation, press, let_go, let_all_go, perform, run, presses, empty, Holds, run-Holds,
}
use chroagh.FbServer.Packets.{
  Input, fake_key, fake_button, fake_motion, Session, with_keys, on_keys, input_case,
}
use chroagh.FbServer.Packets.Decoding.{
  Packet, key, click, move, quit, encode, change, meaning, input_case_lem,
}

-- A packet is read into the buffer, before what it held.
abbrev pub handle : List ℕ → Packet → M Session (Unit {0})
handle stale p s = elim (input_case (encode p ++ stale) (length (encode p))) [
  | none ↦ out_of_fuel
  | some m ↦ m s
]

-- Packets one after the other, the newest first.
abbrev pub handle_all : List ℕ → List Packet → M Session (Unit {0})
handle_all stale [] s = done (tt, s)
handle_all stale (p ∷ ps) s = (handle_all stale ps >>= λ _. handle stale p) s

-- What the packets do to the keys and buttons.
abbrev pub operations : List Packet → List Operation
operations [] = []
operations (key down unused code ∷ ps) =
    change down (record { type = keyboard; code = code }) ∷ operations ps
operations (click down unused code ∷ ps) =
    change down (record { type = mouse; code = code }) ∷ operations ps
operations (move x y ∷ ps) = operations ps
operations (quit ∷ ps) = let_all_go ∷ operations ps

handle_lem : (stale : List ℕ) (p : Packet) (s : Session) → handle stale p s ≡ meaning p s
handle_lem stale p s = let (m, e, r) = input_case_lem p stale s in rw (e, handle) r

fewer : (o : Operation) (h : List Operation) → presses h ≤ presses (o ∷ h)
fewer (press k) h = omega arith
fewer (let_go k) h = omega arith
fewer let_all_go h = omega arith

on_keys_lem :
    (o : Operation) (s : Session) (k k' : Keys)
    → s.keys ≡ k
    → perform o k ≡ done (tt, k')
    → on_keys (perform o) s ≡ done (tt, record s { keys = k' })
on_keys_lem o s k k' e r = ap (with_keys s) (ap (perform o) e ∙ r)

abbrev ending : Keys → Outcome (Unit {0} × Keys)
ending k = done (tt, k)

abbrev end_of : Keys → Outcome (Unit {0} × Keys) → Keys
end_of d (done (_, k)) = k
end_of d _ = d

same_end : (k k' : Keys) → ending k ≡ ending k' → k ≡ k'
same_end k k' r = ap (end_of k) r

-- The last operation of a history that succeeds.
last_step :
    (o : Operation) (h : List Operation) (k k' : Keys)
    → run h empty ≡ done (tt, k)
    → run (o ∷ h) empty ≡ done (tt, k')
    → perform o k ≡ done (tt, k')
last_step o h k k' before after =
    let step : run (o ∷ h) empty ≡ perform o k = rw (before, ◌>>=◌) refl in sym step ∙ after

module _ (stale : List ℕ) (s0 : Session) (none_down : s0.keys ≡ empty) where
  Reaches : List Packet → Keys → Type 0
  Reaches ps k = (s : Session) × (handle_all stale ps s0 ≡ done (tt, s)) × (s.keys ≡ k)

  -- One more packet, whose meaning is an event and then an operation.
  one_more :
      (p : Packet) (i : Input) (o : Operation) (ps : List Packet) (k k' : Keys)
      → ((s : Session) → meaning p s ≡ on_keys (perform o) (record s { input = i ∷ s.input }))
      → Reaches ps k
      → perform o k ≡ done (tt, k')
      → Reaches (p ∷ ps) k'
  unfolding Reaches
  one_more p i o ps k k' means (s, r, e) step =
      let s1 : Session = record s { input = i ∷ s.input } in
      (
        record s1 { keys = k' },
        rw (r, ◌>>=◌) (handle_lem stale p s ∙ means s ∙ on_keys_lem o s1 k k' e step),
        refl,
      )

  handle_all-Reaches :
      (ps : List Packet)
      → presses (operations ps) ≤ capacity
      → (k : Keys) → run (operations ps) empty ≡ done (tt, k)
      → Reaches ps k
  unfolding Reaches
  handle_all-Reaches [] fits k r = (s0, refl, none_down ∙ same_end empty k r)
  handle_all-Reaches (key down unused code ∷ ps) fits k r =
      let o = change down (record { type = keyboard; code = code }) in
      let few : presses (operations ps) ≤ capacity = omega (arith, fits, fewer o (operations ps)) in
      let (k0, r0, _) = run-Holds (operations ps) few in
      one_more (key down unused code) (fake_key code down) o ps k0 k (λ s. refl)
        (handle_all-Reaches ps few k0 r0) (last_step o (operations ps) k0 k r0 r)
  handle_all-Reaches (click down unused code ∷ ps) fits k r =
      let o = change down (record { type = mouse; code = code }) in
      let few : presses (operations ps) ≤ capacity = omega (arith, fits, fewer o (operations ps)) in
      let (k0, r0, _) = run-Holds (operations ps) few in
      one_more (click down unused code) (fake_button code down) o ps k0 k (λ s. refl)
        (handle_all-Reaches ps few k0 r0) (last_step o (operations ps) k0 k r0 r)
  handle_all-Reaches (move x y ∷ ps) fits k r =
      let (s, run', e) = handle_all-Reaches ps fits k r in
      (
        record s { input = fake_motion x y ∷ s.input },
        rw (run', ◌>>=◌) (handle_lem stale (move x y) s),
        e,
      )
  handle_all-Reaches (quit ∷ ps) fits k r =
      let few : presses (operations ps) ≤ capacity = fits in
      let (k0, r0, _) = run-Holds (operations ps) few in
      let (s, run', e) = handle_all-Reaches ps few k0 r0 in
      (
        record s { keys = k },
        rw (run', ◌>>=◌)
            (handle_lem stale quit s
              ∙ on_keys_lem let_all_go s k0 k e (last_step let_all_go (operations ps) k0 k r0 r)),
        refl,
      )

-- From a start with no key down, any sequence of packets with input, with at most 256 presses, is
-- handled without an abort, and then the array of pressed keys is the set of the keys and buttons
-- that the packets left down.
pub handle_all-Holds :
    (stale : List ℕ) (s0 : Session) (ps : List Packet)
    → s0.keys ≡ empty
    → presses (operations ps) ≤ capacity
    → (s : Session) × (handle_all stale ps s0 ≡ done (tt, s)) × Holds (operations ps) s.keys
unfolding Reaches
handle_all-Holds stale s0 ps none_down fits =
    let (k, r, holds) = run-Holds (operations ps) fits in
    let (s, done', e) = handle_all-Reaches stale s0 none_down ps fits k r in (s, done', rw e holds)
