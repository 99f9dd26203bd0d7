-- ===== src/FbServer/Screen/Showing.antt =====
-- What `write_image` of src/fbserver.c shows.
use chroagh.Base.{
  ℕ, ◌*◌, ◌%◌, ◌^◌, ◌≡◌, ◌==◌, refl, sym, ap, ◌∙◌, inl, inr, Bool-cases, not, ◌&&◌, ◌||◌,
  if◌then◌else◌, Bool, true, false, some, List, ◌∷◌, ◌++◌, Outcome, M, aborted, fault, ◌>>=◌,
  ==_iff,
}
use chroagh.FbServer.Cache.{Slot, entry, find_shm}
use chroagh.FbServer.Cache.Balance.{IsBalanced}
use chroagh.FbServer.Cache.Lookup.{Finds, found, missing, unreadable, find_shm-Finds}
use chroagh.FbServer.Replies.{send_binary}
use chroagh.FbServer.Screen.{
  Turn, Screen, Server, in_world, screen_reply, copy_to, copy_image, send_frame, answer_screen,
  has_size, is_empty, write_image,
}

-- The end of `write_image`, for a frame of so many bytes: the reply that is sent, in which state, and
-- whether the frame was copied before that.
pub data Shows (t : Turn) (screen : Screen) (size : ℕ) (copies : List (ℕ × ℕ))
    (r : Outcome (Unit {0} × Server)) : Type 0 where
  unchanged :
      (s : Server)
      → r ≡ in_world (send_binary (screen_reply t screen false false)) s
      → s.copies ≡ copies
      → Shows t screen size copies r
  copied :
      (i : Slot) (m : ℕ) (s : Server)
      → r ≡ in_world (send_binary (screen_reply t screen true false)) s
      → s.copies ≡ (m, size) ∷ copies
      → (entry i s.cache).map ≡ some m
      → (entry i s.cache).length ≡ size
      → (entry i s.cache).paddr ≡ screen.paddr
      → t.system.first_word s.cache.calls m ≡ some screen.sig
      → Shows t screen size copies r
  lost :
      (s : Server)
      → r ≡ in_world (send_binary (screen_reply t screen true true)) s
      → s.copies ≡ copies
      → Shows t screen size copies r
  stopped : r ≡ aborted → Shows t screen size copies r
  unmapped : r ≡ fault → Shows t screen size copies r

module _ (t : Turn) (screen : Screen) (size : ℕ) where
  abbrev reply_with : Bool → M Server (Unit {0})
  reply_with failed = in_world (send_binary (screen_reply t screen true failed))

  copied-Shows :
      (i : Slot) (m : ℕ) (s : Server)
      → (entry i s.cache).map ≡ some m
      → (entry i s.cache).paddr ≡ screen.paddr
      → t.system.first_word s.cache.calls m ≡ some screen.sig
      → Shows t screen size s.copies ((copy_image size (some i) >>= reply_with) s)
  copied-Shows i m s map paddr word =
      let len = (entry i s.cache).length in
      let start : (copy_image size (some i) >>= reply_with) s
          ≡ (copy_to size len (some m) >>= reply_with) s =
        ap (λ o. (copy_to size len o >>= reply_with) s) map in
      elim (Bool-cases (size == len)) [
        | inl e ↦
            copied i m (record s { copies = (m, size) ∷ s.copies }) (start ∙ rw (e, ◌>>=◌) refl)
              refl map (sym ((==_iff size len).0 e)) paddr word
        | inr e ↦ lost s (start ∙ rw (e, ◌>>=◌) refl) refl
      ]

  send_frame-Shows :
      (s : Server) → IsBalanced s.cache → Shows t screen size s.copies (send_frame t screen size s)
  send_frame-Shows s h = judged (find_shm-Finds t.system screen.paddr screen.sig size s.cache h)
    where
      judged :
          Finds t.system screen.paddr screen.sig
            (find_shm t.system screen.paddr screen.sig size s.cache)
          → Shows t screen size s.copies (send_frame t screen size s)
      judged (found i m c e _ paddr map word) =
          rw (e, ◌>>=◌) (copied-Shows i m (record s { cache = c }) map paddr word)
      judged (missing c e _) = lost (record s { cache = c }) (rw (e, ◌>>=◌) refl) refl
      judged (unreadable i m c e _ _) = unmapped (rw (e, ◌>>=◌) refl)

abbrev pub size_of : Turn → Screen → ℕ
size_of t screen = t.bytes_per_line screen.width * screen.height

abbrev Ends : Turn → Screen → Server → Outcome (Unit {0} × Server) → Type 0
Ends t screen s r = Shows t screen (size_of t screen) s.copies r

if-Ends :
    (t : Turn) (screen : Screen) (s : Server) (b : Bool) (m k : M Server (Unit {0}))
    → Ends t screen s (m s)
    → Ends t screen s (k s)
    → Ends t screen s ((if b then m else k) s)
if-Ends t screen s true m k h h' = h
if-Ends t screen s false m k h h' = h'

answer_screen-Ends :
    (t : Turn) (screen : Screen) (b : Bool) (s : Server)
    → IsBalanced s.cache
    → Ends t screen s (answer_screen t screen b s)
answer_screen-Ends t screen b s h = if-Ends t screen s (not b) _ _ (unchanged s refl refl) (
    if-Ends t screen s
      (not (size_of t screen % 2 ^ 32 == screen.width * screen.height * 4 % 2 ^ 32)) _ _
      (stopped refl)
      (if-Ends t screen s (not screen.shm) _ _ (stopped refl)
        (send_frame-Shows t screen (size_of t screen) s h)))

-- If the cache adds up, a request for the screen ends in one of five ways: the reply that nothing
-- was updated, and no copy; the reply with an updated frame, after one copy of the whole frame into
-- an entry of the cache that is mapped with that length for the address and started with the
-- signature; the reply that the memory was not found, and no copy; an abort; or a mapping that
-- cannot be read.
pub write_image-Shows :
    (t : Turn) (screen : Screen) (s : Server)
    → IsBalanced s.cache
    → Shows t screen (size_of t screen) s.copies (write_image t screen s)
unfolding write_image
write_image-Shows t screen s h =
    let fresh = not (has_size screen.width screen.height s.image) in
    elim (Bool-cases (fresh && not t.allocates)) [
      | inl e ↦ rw e (stopped refl)
      | inr e ↦ rw e (
          answer_screen-Ends t screen
            (fresh || screen.refresh || not (is_empty t.mapped) || t.damaged)
            (record s {
              image = some (screen.width, screen.height);
              registered = t.mapped ++ s.registered;
            })
            h)
    ]
