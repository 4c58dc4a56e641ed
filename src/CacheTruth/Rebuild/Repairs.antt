-- ===== src/CacheTruth/Rebuild/Repairs.antt =====
-- Actions that make the keys of some owners right and of none wrong.
use yun_chat.Prelude.{
  ℕ, ◌≡◌, refl, ◌∙◌, inl, inr, Bool, true, false, ◌&&◌, ◌||◌, ◌==◌, arith, ==_iff, Bool-cases,
}
use yun_chat.Sql.{Result, ok, err, Conn, Sql, pure, continue, ◌>>=◌}
use yun_chat.Database.{CacheResource, friends, group_members, blacklist, same_resource}
use yun_chat.Projection.Friendships.{IsIndexed}
use yun_chat.CacheTruth.{Stores, Settings, reconcile_now}
use yun_chat.CacheTruth.Freshness.{Shows}
use yun_chat.CacheTruth.Mirroring.{Mirrors}
use yun_chat.CacheTruth.AsMirror.{as_mirror, reconcile_now-After}

abbrev pub ShowsIn : CacheResource → ℕ → Stores → Type 0
ShowsIn r i s = Shows r i s.tables s.cache

-- No owner gets worse, and with success the covered ones are right.
pub record IsRepaired {A : Type 0} (covers : CacheResource → ℕ → Bool) (r : Result A) (s t : Stores)
    : Type 0 where
  pub same_tables : t.tables ≡ s.tables
  pub indexed : IsIndexed t.cache
  pub keeps : (q : CacheResource) (j : ℕ) → ShowsIn q j s → ShowsIn q j t
  pub repaired : (q : CacheResource) (j : ℕ) (a : A) → r ≡ ok a → covers q j ≡ true → ShowsIn q j t

abbrev pub Repairs : {A : Type 0} → (CacheResource → ℕ → Bool) → Sql Stores A → Type 0
Repairs covers m =
    (c : Conn Stores) → IsIndexed c.db.cache → IsRepaired covers (m c).0 c.db (m c).1.db

abbrev pub none_covered : CacheResource → ℕ → Bool
none_covered q j = false

pub pure-Repairs : {A : Type 0} (a : A) → Repairs none_covered (pure a)
pure-Repairs a c v = record {
  same_tables = refl;
  indexed = v;
  keeps = λ q j h. h;
  repaired = λ q j b e h. absurd (cc);
}

abbrev pub both : (CacheResource → ℕ → Bool) → (CacheResource → ℕ → Bool) → CacheResource → ℕ → Bool
both p q r j = p r j || q r j

module _ {A B : Type 0} (p q : CacheResource → ℕ → Bool) (f : A → Sql Stores B) where
  pub continue-Repaired :
      (s : Stores) (r : Result A) (c : Conn Stores)
      → ((a : A) → Repairs q (f a))
      → IsRepaired p r s c.db
      → IsRepaired (both p q) (continue r f c).0 s (continue r f c).1.db
  continue-Repaired s (ok a) c k h =
      let n = k a c h.indexed in
      record {
        same_tables = n.same_tables ∙ h.same_tables;
        indexed = n.indexed;
        keeps = λ r j x. n.keeps r j (h.keeps r j x);
        repaired = λ r j b e covered. elim (Bool-cases (p r j)) [
          | inl first ↦ n.keeps r j (h.repaired r j a refl first)
          | inr other ↦ n.repaired r j b e (rw other at covered)
        ];
      }
  continue-Repaired s (err e) c k h = record {
    same_tables = h.same_tables;
    indexed = h.indexed;
    keeps = h.keeps;
    repaired = λ r j b e' covered. absurd (cc);
  }

  pub Repairs-bind :
      (m : Sql Stores A) → Repairs p m → ((a : A) → Repairs q (f a)) → Repairs (both p q) (m >>= f)
  unfolding ◌>>=◌
  Repairs-bind m h k c v = continue-Repaired c.db (m c).0 (m c).1 k (h c v)

pub Repairs-covers :
    {A : Type 0} (p q : CacheResource → ℕ → Bool) (m : Sql Stores A)
    → ((r : CacheResource) (j : ℕ) → q r j ≡ true → p r j ≡ true)
    → Repairs p m
    → Repairs q m
Repairs-covers p q m f h c v =
    let n = h c v in
    record {
      same_tables = n.same_tables;
      indexed = n.indexed;
      keeps = n.keeps;
      repaired = λ r j a e k. n.repaired r j a e (f r j k);
    }

-- What the two parts of a chain cover.
pub Repairs-chain :
    {A B : Type 0} (p q w : CacheResource → ℕ → Bool) (m : Sql Stores A) (f : A → Sql Stores B)
    → ((r : CacheResource) (j : ℕ) → w r j ≡ true → both p q r j ≡ true)
    → Repairs p m
    → ((a : A) → Repairs q (f a))
    → Repairs w (m >>= f)
Repairs-chain p q w m f cover h k =
    Repairs-covers (both p q) w (m >>= f) cover (Repairs-bind p q f m h k)

abbrev pub is_owner : CacheResource → ℕ → CacheResource → ℕ → Bool
is_owner r i q j = same_resource r q && i == j

same-eq : (r q : CacheResource) → same_resource r q ≡ true → r ≡ q
same-eq friends friends h = refl
same-eq blacklist blacklist h = refl
same-eq group_members group_members h = refl
same-eq friends blacklist h = absurd (cc)
same-eq friends group_members h = absurd (cc)
same-eq blacklist friends h = absurd (cc)
same-eq blacklist group_members h = absurd (cc)
same-eq group_members friends h = absurd (cc)
same-eq group_members blacklist h = absurd (cc)

pub reconcile_now-Repairs :
    (o : Settings) (r : CacheResource) (i : ℕ) → Repairs (is_owner r i) (reconcile_now o r i)
reconcile_now-Repairs o r i c v =
    let m = as_mirror o in
    record {
      same_tables = unmoved _ _ ((reconcile_now-After o r i c.db).holds c.outcomes);
      indexed = m.stays_sound r i c v;
      keeps = λ q j h. m.spoils_none r q i j c v h;
      repaired = λ q j a e owned.
          owner q j (ground (arith, owned)) (ground (arith, owned)) (m.reconciles r i c v e);
    }
  where
    owner :
        (q : CacheResource) (j : ℕ)
        → same_resource r q ≡ true
        → (i == j) ≡ true
        → ShowsIn r i (reconcile_now o r i c).1.db
        → ShowsIn q j (reconcile_now o r i c).1.db
    owner q j h k x = rw (← same-eq r q h, ← (==_iff i j).0 k) x

    unmoved :
        (x : Result (Unit {0})) (s : Stores)
        → Mirrors r i c.db.tables c.db.cache x s
        → s.tables ≡ c.db.tables
    unmoved (ok _) s h = h.0
    unmoved (err x) s h = h.0
