-- ===== src/Email/Templates/Escaping.antt =====
-- What escaping guarantees to the HTML around it, and that no text is lost by it.
use rsp_website.Prelude.{
  ℕ, ◌≡◌, refl, ◌≢◌, inl, inr, [], ◌∷◌, ◌++◌, arith, if◌then◌else◌, ◌==◌, All, All-append,
  Bool-cases,
}
use mathlib.Core.Path.{sym, ap₂, ◌∙◌}
use mathlib.Core.List.{append_assoc}
use rsp_website.Prelude.Texts.{Text}
use rsp_website.Email.Templates.{replace_all, amp, lt, gt, quot, apos, escape_html}

-- one character, escaped
pub entity : ℕ → Text
entity c =
    if c == b'&'
    then amp
    else if c == b'<'
    then lt
    else if c == b'>'
    then gt
    else if c == b'"'
    then quot
    else if c == b'\''
    then apos
    else c ∷ []

-- The reference: every character escaped on its own, in one pass.
pub escape_each : Text → Text
escape_each [] = []
escape_each (c ∷ s) = entity c ++ escape_each s

replace_all-append :
    (c : ℕ) (by s t : Text) → replace_all c by (s ++ t) ≡ replace_all c by s ++ replace_all c by t
unfolding replace_all
replace_all-append c by [] t = refl
replace_all-append c by (d ∷ s) t = elim (Bool-cases (d == c)) [
  | inl e ↦ rw e (rw (replace_all-append c by s t) (sym (append_assoc by _ _)))
  | inr e ↦ rw e (rw (replace_all-append c by s t) refl)
]

escape_html-append : (s t : Text) → escape_html (s ++ t) ≡ escape_html s ++ escape_html t
unfolding escape_html
escape_html-append s t = simp replace_all-append

escape_html_one : (c : ℕ) → escape_html (c ∷ []) ≡ entity c
unfolding escape_html replace_all entity
escape_html_one c = ground arith

-- The five replacements, one after the other, escape each character of the text exactly once: no
-- entity that one of them writes is escaped again by a later one.
pub escape_html-eq-escape_each : (value : Text) → escape_html value ≡ escape_each value
unfolding escape_each
escape_html-eq-escape_each [] = unfold escape_html replace_all in refl
escape_html-eq-escape_each (c ∷ s) =
    escape_html-append (c ∷ []) s
    ∙ ap₂ (λ (a b : Text). a ++ b) (escape_html_one c) (escape_html-eq-escape_each s)

-- A character that can stand in an attribute in double or single quotes, and in an element.
abbrev pub IsInert : ℕ → Type 0
IsInert c = (c ≢ b'<') × (c ≢ b'>') × (c ≢ b'"') × (c ≢ b'\'')

entity-IsInert : (c : ℕ) → All IsInert (entity c)
unfolding entity
entity-IsInert c = ground arith

escape_each-IsInert : (value : Text) → All IsInert (escape_each value)
unfolding escape_each
escape_each-IsInert [] = tt
escape_each-IsInert (c ∷ s) =
    All-append IsInert (entity c) (escape_each s) (entity-IsInert c) (escape_each-IsInert s)

-- Whatever the text, its escaped form has no angle bracket and no quote, so that it ends neither an
-- attribute nor an element in the message.
pub escape_html-IsInert : (value : Text) → All IsInert (escape_html value)
escape_html-IsInert value = rw (escape_html-eq-escape_each value) (escape_each-IsInert value)
