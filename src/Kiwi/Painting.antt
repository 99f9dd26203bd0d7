-- ===== src/Kiwi/Painting.antt =====
-- The painting of frames: `OnFlush` and `Paint` of host-ext/nacl_src/kiwi.cc.
use chroagh.Base.{
  ℕ, zero, suc, ◌+◌, ◌*◌, ◌/◌, ◌^◌, if◌then◌else◌, Bool, true, false, Option, none, some, List, [],
  ◌∷◌,
}
use chroagh.Kiwi.State.{Kiwi, Image, calls_after, request_screen_again, flushes, emit}
use chroagh.Kiwi.Sending.{request_screen}

-- The floating-point arithmetic of a step: a length in the units of Javascript, and the delay in
-- milliseconds to the next frame at a positive rate, `none` if it is late already.
pub record Scales : Type 0 where
  pub unscaled : ℕ → ℕ
  pub delay : ℕ → Option ℕ

-- `debug_` is 0: all pixels become black.
abbrev pub blank_word : ℕ → ℕ → ℕ
blank_word zero word = word
blank_word (suc zero) word = 0xff000000 + 2 ^ 32 * (word / 2 ^ 32)
blank_word (suc (suc n)) word = 0xff000000 + 2 ^ 32 * 0xff000000

abbrev pub blank_if : Bool → Image → Image
blank_if false image = image
blank_if true image = record image {
  first_word = blank_word (image.width * image.height) image.first_word;
}

unfoldable pub paint : Bool → Kiwi → Kiwi
paint blank s =
    if s.has_context then emit (flushes blank) (record s { image = blank_if blank s.image }) else s

abbrev pub next_address : List ℕ → ℕ → ℕ
next_address [] a = a
next_address (x ∷ xs) a = x

abbrev pub rest_of : List ℕ → List ℕ
rest_of [] = []
rest_of (x ∷ xs) = xs

-- The next image, whose contents are not looked at before they are written.
abbrev pub new_image : Kiwi → Kiwi
new_image s = record s {
  screen_flying = false;
  image = record {
    width = s.size_width;
    height = s.size_height;
    address = next_address s.images s.image.address;
    first_word = s.image.first_word;
  };
  images = rest_of s.images;
}

-- The next request for a frame: never, later or now.
abbrev pub ask_again : ℕ → Option ℕ → Kiwi → Kiwi
ask_again zero delay s = s
ask_again (suc fps) (some ms) s = emit (calls_after ms (request_screen_again s.request_token)) s
ask_again (suc fps) none s = request_screen s.request_token s

unfoldable pub on_flush : Scales → Kiwi → Kiwi
on_flush scales s = ask_again s.target_fps (scales.delay s.target_fps) (new_image s)
