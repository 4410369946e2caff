-- ===== src/Prelude/Texts.antt =====
-- Texts that the program walks, as lists of code units: `trim`, case folding, `startsWith`,
-- `slice(n)`. Case folding is that of ASCII; other characters are left as they are.
use Prim.Native.Nat.{ℕ, ◌+◌, ◌-◌}
use mathlib.Core.Path.{◌≡◌, refl}
use mathlib.Core.Logic.{◌↔◌, ◌≢◌}
use mathlib.Core.Bool.{Bool, true, false, ◌&&◌, ◌||◌}
use mathlib.Core.Option.{Option, none, some}
use mathlib.Core.List.{List, [], ◌∷◌, ◌++◌, map, reverse}
use native.Mathlib.Omega.{arith}
use rsp_website.Prelude.Tests.{leb, ◌==◌, if◌then◌else◌}

abbrev pub Text : Type 0
Text = List ℕ

abbrev pub text_eq : Text → Text → Bool
text_eq [] [] = true
text_eq [] (_ ∷ _) = false
text_eq (_ ∷ _) [] = false
text_eq (a ∷ s) (b ∷ t) = a == b && text_eq s t

pub text_eq_iff : (s t : Text) → (text_eq s t ≡ true) ↔ (s ≡ t)
text_eq_iff [] [] = ground arith
text_eq_iff [] (_ ∷ _) = ground arith
text_eq_iff (_ ∷ _) [] = ground arith
text_eq_iff (a ∷ s) (b ∷ t) = ground (arith, text_eq_iff s t)

pub text_eq_refl : (s : Text) → text_eq s s ≡ true
text_eq_refl s = (text_eq_iff s s).1 refl

pub text_ne : (s t : Text) → text_eq s t ≡ false → s ≢ t
text_ne s t h = ground (arith, text_eq_iff s t)

-- `s.startsWith(prefix)` with `s.slice(prefix.length)`: the rest behind the prefix
unfoldable pub strip_prefix : Text → Text → Option Text
strip_prefix [] s = some s
strip_prefix (_ ∷ _) [] = none
strip_prefix (p ∷ ps) (c ∷ s) = if p == c then strip_prefix ps s else none

pub strip_prefix_iff : (p s rest : Text) → (strip_prefix p s ≡ some rest) ↔ (s ≡ p ++ rest)
unfolding strip_prefix
strip_prefix_iff [] s rest = ground arith
strip_prefix_iff (a ∷ p) [] rest = ground arith
strip_prefix_iff (a ∷ p) (c ∷ s) rest = ground (arith, strip_prefix_iff p s rest)

-- the white space and line terminators of ECMAScript
unfoldable pub is_space : ℕ → Bool
is_space c =
    leb 9 c && leb c 13
    || c == 32
    || c == 0xa0
    || c == 0x1680
    || leb 0x2000 c && leb c 0x200a
    || c == 0x2028
    || c == 0x2029
    || c == 0x202f
    || c == 0x205f
    || c == 0x3000
    || c == 0xfeff

unfoldable pub drop_spaces : Text → Text
unfolding is_space
drop_spaces [] = []
drop_spaces (c ∷ s) = if is_space c then drop_spaces s else c ∷ s

unfoldable pub trim : Text → Text
unfolding drop_spaces
trim s = reverse (drop_spaces (reverse (drop_spaces s)))

unfoldable pub lower_code : ℕ → ℕ
lower_code c = if leb b'A' c && leb c b'Z' then c + 32 else c

unfoldable pub upper_code : ℕ → ℕ
upper_code c = if leb b'a' c && leb c b'z' then c - 32 else c

unfoldable pub to_lower : Text → Text
unfolding lower_code
to_lower = map lower_code

unfoldable pub to_upper : Text → Text
unfolding upper_code
to_upper = map upper_code

pub to_lower_nil : to_lower [] ≡ []
unfolding to_lower
to_lower_nil = refl

pub nil_of_to_lower : (t : Text) → to_lower t ≡ [] → t ≡ []
unfolding to_lower
nil_of_to_lower [] h = refl
nil_of_to_lower (c ∷ s) h = cc
