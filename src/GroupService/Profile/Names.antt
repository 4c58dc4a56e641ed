-- ===== src/GroupService/Profile/Names.antt =====
-- Names and notices of a group.
use yun_chat.Prelude.{◌≤◌, ◌≡◌, ◌≢◌, sym, ap, ◌∙◌, false, arith, ltb, length, some_passes, unless}
use yun_chat.AppError.{invalid_param}
use yun_chat.Model.{Text}
use yun_chat.Text.{trim_space, is_control}
use yun_chat.Text.Trimming.{trim_space-trim_space}
use yun_chat.Service.{valid, invalid}
use yun_chat.GroupService.Profile.{
  normalize_group_profile, checked_name, is_empty, is_unsupported, max_group_name_runes,
  max_group_notice_runes,
}

-- What the tests of a name and a notice accept.
pub record Presentable (name notice : Text) : Type 0 where
  pub named : is_empty name ≡ false
  pub name_fits : length name ≤ max_group_name_runes
  pub name_plain : some_passes is_control name ≡ false
  pub notice_fits : length notice ≤ max_group_notice_runes
  pub notice_plain : some_passes is_unsupported notice ≡ false

invalid_ne_valid : {A : Type 0} (a : A) → invalid invalid_param ≢ valid a
invalid_ne_valid a h = cc

value_of : {A : Type 0} (a b : A) → valid a ≡ valid b → a ≡ b
value_of a b h = cc

-- A name and its cut notice that pass the tests, with the pair that they give.
accepted :
    (n raw : Text) (p : Text × Text)
    → checked_name n raw ≡ valid p
    → Presentable n (trim_space raw) × (p ≡ (n, trim_space raw))
accepted n raw p e =
    unless (is_empty n) (λ h. absurd (invalid_ne_valid p (simp h at e)))
      λ named.
        unless (ltb max_group_name_runes (length n))
          (λ h. absurd (invalid_ne_valid p (simp (named, h) at e)))
          λ fits.
            unless (some_passes is_control n)
              (λ h. absurd (invalid_ne_valid p (simp (named, fits, h) at e)))
              λ plain.
                unless (ltb max_group_notice_runes (length (trim_space raw)))
                  (λ h. absurd (invalid_ne_valid p (simp (named, fits, plain, h) at e)))
                  λ short.
                    unless (some_passes is_unsupported (trim_space raw))
                      (λ h. absurd (invalid_ne_valid p (simp (named, fits, plain, short, h) at e)))
                      λ clean. (
                        record {
                          named = named;
                          name_fits = ground (arith, fits);
                          name_plain = plain;
                          notice_fits = ground (arith, short);
                          notice_plain = clean;
                        },
                        sym (value_of _ _ (simp (named, fits, plain, short, clean) at e)),
                      )

passes :
    (n raw : Text) → Presentable n (trim_space raw) → checked_name n raw ≡ valid (n, trim_space raw)
passes n raw p =
    let fits : ltb max_group_name_runes (length n) ≡ false = ground (arith, p.name_fits) in
    let short : ltb max_group_notice_runes (length (trim_space raw)) ≡ false =
      ground (arith, p.notice_fits) in
    simp (p.named, fits, p.name_plain, short, p.notice_plain)

-- A name and a notice that Create or Update accepts are not empty (the name), at most 50 and 300 code points
-- long and free of control characters (of all but tab, line feed and carriage return in the notice); and
-- they are accepted as they are when they are read back and sent again.
pub normalize_group_profile-Presentable :
    (raw_name raw_notice name notice : Text)
    → normalize_group_profile raw_name raw_notice ≡ valid (name, notice)
    → Presentable name notice × (normalize_group_profile name notice ≡ valid (name, notice))
unfolding normalize_group_profile
normalize_group_profile-Presentable raw_name raw_notice name notice e =
    let r = accepted (trim_space raw_name) raw_notice (name, notice) e in
    let same_name : name ≡ trim_space raw_name = ap (λ p. p.0) r.1 in
    let same_notice : notice ≡ trim_space raw_notice = ap (λ p. p.1) r.1 in
    let name_cut : trim_space name ≡ name = rw same_name (trim_space-trim_space raw_name) in
    let notice_cut : trim_space notice ≡ notice =
      rw same_notice (trim_space-trim_space raw_notice) in
    let good : Presentable name notice = rw (same_name, same_notice) r.0 in
    (
      good,
      rw name_cut (passes name notice (rw notice_cut good) ∙ ap (λ t. valid (name, t)) notice_cut),
    )
