-- ===== src/Base/Utf8.antt =====
-- `std::str::from_utf8`: the well-formed byte sequences of the Unicode standard (table 3-7).
use Prim.Native.Nat.{ℕ, ◌<◌}
use mathlib.Core.Bool.{Bool, true, false, ◌&&◌}
use mathlib.Core.Option.{Option, none, some}
use mathlib.Core.Path.{◌≡◌, refl}
use mathlib.Core.List.{[], ◌∷◌, ◌++◌}
use gearman_rs.Base.Tests.{leb, ltb, ◌==◌, if◌then◌else◌}
use native.Mathlib.Omega.{arith}
use gearman_rs.Base.Lists.{All}
use gearman_rs.Base.Text.{Bytes}

-- What may follow the bytes read so far: a new character, one to three continuation bytes, or a
-- continuation byte whose range the lead byte narrows.
pub data Utf8State : Type 0 where
  start tail1 tail2 tail3 after_e0 after_ed after_f0 after_f4 bad : Utf8State

abbrev within : ℕ → ℕ → ℕ → Bool
within lo hi b = leb lo b && leb b hi

lead : ℕ → Utf8State
lead b =
    if ltb b 0x80
    then start
    else if within 0xc2 0xdf b
    then tail1
    else if b == 0xe0
    then after_e0
    else if b == 0xed
    then after_ed
    else if within 0xe1 0xef b
    then tail2
    else if b == 0xf0
    then after_f0
    else if within 0xf1 0xf3 b
    then tail3
    else if b == 0xf4
    then after_f4
    else bad

utf8_step : Utf8State → ℕ → Utf8State
utf8_step start b = lead b
utf8_step tail1 b = if within 0x80 0xbf b then start else bad
utf8_step tail2 b = if within 0x80 0xbf b then tail1 else bad
utf8_step tail3 b = if within 0x80 0xbf b then tail2 else bad
utf8_step after_e0 b = if within 0xa0 0xbf b then tail1 else bad
utf8_step after_ed b = if within 0x80 0x9f b then tail1 else bad
utf8_step after_f0 b = if within 0x90 0xbf b then tail2 else bad
utf8_step after_f4 b = if within 0x80 0x8f b then tail2 else bad
utf8_step bad b = bad

utf8_run : Utf8State → Bytes → Bool
utf8_run start [] = true
utf8_run _ [] = false
utf8_run s (b ∷ bs) = utf8_run (utf8_step s b) bs

unfoldable pub is_utf8 : Bytes → Bool
unfolding utf8_run utf8_step lead
is_utf8 = utf8_run start

unfoldable pub from_utf8 : Bytes → Option Bytes
unfolding is_utf8
from_utf8 b = if is_utf8 b then some b else none

-- A run that ends between two characters may go on.
utf8_run-append :
    (now : Utf8State) (s t : Bytes)
    → utf8_run now s ≡ true
    → utf8_run now (s ++ t) ≡ utf8_run start t
unfolding utf8_run utf8_step
utf8_run-append start [] t h = refl
utf8_run-append tail1 [] t h = cc
utf8_run-append tail2 [] t h = cc
utf8_run-append tail3 [] t h = cc
utf8_run-append after_e0 [] t h = cc
utf8_run-append after_ed [] t h = cc
utf8_run-append after_f0 [] t h = cc
utf8_run-append after_f4 [] t h = cc
utf8_run-append bad [] t h = cc
utf8_run-append start (b ∷ s) t h = utf8_run-append (utf8_step start b) s t h
utf8_run-append tail1 (b ∷ s) t h = utf8_run-append (utf8_step tail1 b) s t h
utf8_run-append tail2 (b ∷ s) t h = utf8_run-append (utf8_step tail2 b) s t h
utf8_run-append tail3 (b ∷ s) t h = utf8_run-append (utf8_step tail3 b) s t h
utf8_run-append after_e0 (b ∷ s) t h = utf8_run-append (utf8_step after_e0 b) s t h
utf8_run-append after_ed (b ∷ s) t h = utf8_run-append (utf8_step after_ed b) s t h
utf8_run-append after_f0 (b ∷ s) t h = utf8_run-append (utf8_step after_f0 b) s t h
utf8_run-append after_f4 (b ∷ s) t h = utf8_run-append (utf8_step after_f4 b) s t h
utf8_run-append bad (b ∷ s) t h = utf8_run-append bad s t h

-- After a text, the bytes that follow decide.
pub is_utf8-append : (s t : Bytes) → is_utf8 s ≡ true → is_utf8 (s ++ t) ≡ is_utf8 t
unfolding is_utf8
is_utf8-append s t h = utf8_run-append start s t h

pub is_utf8-ascii : (s : Bytes) → All (λ b. b < 128) s → is_utf8 s ≡ true
unfolding is_utf8 utf8_run utf8_step lead
is_utf8-ascii [] h = refl
is_utf8-ascii (b ∷ s) (low, rest) = ground (arith, is_utf8-ascii s rest)

pub from_utf8-text : (s : Bytes) → is_utf8 s ≡ true → from_utf8 s ≡ some s
unfolding from_utf8
from_utf8-text s h = rw h refl
