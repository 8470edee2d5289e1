-- ===== src/Tests/Cache.antt =====
-- A cache that keeps the laws: a table with no bound on its size.
use ppcsimbooke.Base.{ℕ, refl, Bool, true, false, Option, none, some, ◌==◌, arith}
use ppcsimbooke.Tlb.Cache.{LruCache, LruView, LruLaws}

pub record Table : Type 0 where
  pub entries : ℕ → Option (ℕ × ℕ)
  pub missed : Bool

abbrev pub empty_table : Table
empty_table = record { entries = λ k. none; missed = false }

abbrev pub value_of : Option (ℕ × ℕ) → ℕ
value_of none = 0
value_of (some p) = p.0

abbrev pub info_of : Option (ℕ × ℕ) → ℕ
info_of none = 0
info_of (some p) = p.1

abbrev pub missed_after : Bool → Option (ℕ × ℕ) → Bool
missed_after b none = true
missed_after b (some p) = b

abbrev pub touch : Table → ℕ → Table
touch c k = record c { missed = missed_after c.missed (c.entries k) }

abbrev pub put : ℕ → Option (ℕ × ℕ) → (ℕ → Option (ℕ × ℕ)) → ℕ → Option (ℕ × ℕ)
put k new old j = elim (j == k) [ true ↦ new | false ↦ old j ]

abbrev pub table_cache : LruCache Table
table_cache = record {
  at = λ c k. (value_of (c.entries k), touch c k);
  info_at = λ c k. (info_of (c.entries k), touch c k);
  error = λ c. (c.missed, record c { missed = false });
  insert = λ c k a i. record c { entries = put k (some (a, i)) c.entries };
  clear = λ c. record c { entries = λ k. none };
}

abbrev pub table_view : LruView Table
table_view = record { view = λ c k. c.entries k; flag = λ c. c.missed }

pub table_laws : LruLaws table_cache table_view
table_laws = record {
  at_value = λ c k a i h. rw h refl;
  at_view = λ c k j. refl;
  at_hit = λ c k a i h. rw h refl;
  at_miss = λ c k h. rw h refl;
  info_value = λ c k a i h. rw h refl;
  info_view = λ c k j. refl;
  info_hit = λ c k a i h. rw h refl;
  info_miss = λ c k h. rw h refl;
  error_value = λ c. refl;
  error_flag = λ c. refl;
  error_view = λ c j. refl;
  clear_view = λ c j. refl;
  clear_flag = λ c. refl;
  insert_flag = λ c k a i. refl;
  insert_view = λ c k a i j b w h. ground (arith, h);
}
