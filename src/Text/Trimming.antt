-- ===== src/Text/Trimming.antt =====
-- strings.TrimSpace leaves a text that begins and ends without white space.
use yun_chat.Prelude.{◌≡◌, refl, sym, ap, ◌∙◌, false, [], ◌∷◌, ◌++◌, unless, if◌then◌else◌}
use mathlib.Core.List.{reverse, reverse-reverse, reverse-append}
use yun_chat.Model.{Text}
use yun_chat.Text.{is_space, trim_left, trim_space}

-- No white space in front.
abbrev Trimmed : Text → Type 0
Trimmed [] = Unit {0}
Trimmed (c ∷ cs) = is_space c ≡ false

trim_left-Trimmed : (s : Text) → Trimmed (trim_left s)
unfolding trim_left
trim_left-Trimmed [] = tt
trim_left-Trimmed (c ∷ cs) = unless (is_space c) (λ e. simp e (trim_left-Trimmed cs)) (λ e. simp e)

trim_left_of_Trimmed : (s : Text) → Trimmed s → trim_left s ≡ s
unfolding trim_left
trim_left_of_Trimmed [] h = refl
trim_left_of_Trimmed (c ∷ cs) h = simp h

-- What is cut off in front.
abbrev cut : Text → Text
cut [] = []
cut (c ∷ cs) = let rest = cut cs in if is_space c then c ∷ rest else []

cut_trim : (s : Text) → s ≡ cut s ++ trim_left s
unfolding trim_left
cut_trim [] = refl
cut_trim (c ∷ cs) = unless (is_space c) (λ e. simp e (ap (λ t. c ∷ t) (cut_trim cs))) (λ e. simp e)

Trimmed-prefix : (a b : Text) → Trimmed (a ++ b) → Trimmed a
Trimmed-prefix [] b h = tt
Trimmed-prefix (c ∷ cs) b h = h

pub trim_space-trim_space : (s : Text) → trim_space (trim_space s) ≡ trim_space s
unfolding trim_space
trim_space-trim_space s =
    let u = trim_left s in
    let v = trim_left (reverse u) in
    let whole : u ≡ reverse v ++ reverse (cut (reverse u)) =
      sym (reverse-reverse u)
      ∙ ap reverse (cut_trim (reverse u))
      ∙ reverse-append (cut (reverse u)) v in
    let front : Trimmed (reverse v) =
      Trimmed-prefix (reverse v) (reverse (cut (reverse u))) (rw whole at (trim_left-Trimmed s)) in
    rw
      (
        trim_left_of_Trimmed (reverse v) front,
        reverse-reverse v,
        trim_left_of_Trimmed v (trim_left-Trimmed (reverse u)),
      )
      refl
