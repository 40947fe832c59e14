-- ===== src/Apps/Text.antt =====
-- Strings of tcp_apps.c: bytes without a zero, on which sprintf and strlen stop at the end.
use network_lab.Base.{
  ℕ, ◌≡◌, refl, false, Bool-cases, inl, inr, List, [], ◌∷◌, ◌++◌, Every, ◌==◌, c_string,
}
use network_lab.Apps.{greeting}
use network_lab.Apps.Echo.{reply}

abbrev pub IsText : List ℕ → Type 0
IsText = Every (λ c. (c == 0) ≡ false)

pub c_string-text : (bytes : List ℕ) → IsText bytes → c_string bytes ≡ bytes
c_string-text [] text = refl
c_string-text (c ∷ bytes) text = rw (text.0, c_string-text bytes text.1) refl

c_string-IsText : (buf : List ℕ) → IsText (c_string buf)
c_string-IsText [] = tt
c_string-IsText (c ∷ buf) = elim (Bool-cases (c == 0)) [
  | inl stops ↦ rw (stops) tt
  | inr goes ↦ rw (goes) (goes, c_string-IsText buf)
]

append-IsText : (xs ys : List ℕ) → IsText xs → IsText ys → IsText (xs ++ ys)
append-IsText [] ys text text' = text'
append-IsText (x ∷ xs) ys text text' = (text.0, append-IsText xs ys text.1 text')

pub front-IsText : (xs ys : List ℕ) → IsText (xs ++ ys) → IsText xs
front-IsText [] ys text = tt
front-IsText (x ∷ xs) ys text = (text.0, front-IsText xs ys text.1)

greeting-IsText : IsText greeting
greeting-IsText = (
  refl,
  (
    refl,
    (
      refl,
      (
        refl,
        (refl, (refl, (refl, (refl, (refl, (refl, (refl, (refl, (refl, (refl, (refl, tt))))))))))),
      ),
    ),
  ),
)

pub reply-IsText : (bytes : List ℕ) → IsText (reply bytes)
reply-IsText [] = tt
reply-IsText (b ∷ bytes) =
    append-IsText greeting (c_string (b ∷ bytes)) greeting-IsText (c_string-IsText (b ∷ bytes))
