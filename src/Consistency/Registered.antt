-- ===== src/Consistency/Registered.antt =====
-- A store whose entries hold the reservations of their names.
use text.Mathlib.TextEquality.{eq_iff}
use cri_containerd.Base.{String, ◌≡◌, ◌≢◌, none, some, arith, inl, inr, Option-cases, string_eq}
use cri_containerd.Map.{Map, lookup, insert, erase, lookup-insert, lookup-erase}
use cri_containerd.Registrar.{Registrar, release_by_key}
use cri_containerd.Registrar.Bijection.{IsBijection, release-IsBijection}

-- Every entry is stored under its id, and its name is reserved for that id.
pub record Registered {V : Type 0} (id name : V → String) (m : Map V) (r : Registrar) : Type 0 where
  pub keyed : (j : String) (v : V) → lookup j m ≡ some v → id v ≡ j
  pub named : (j : String) (v : V) → lookup j m ≡ some v → lookup (name v) r.name_to_key ≡ some j
  pub inverse : IsBijection r

-- A release by key takes no name from another key.
release_by_key-others :
    (key n k : String) (r : Registrar)
    → IsBijection r
    → lookup n r.name_to_key ≡ some k
    → k ≢ key
    → lookup n (release_by_key key r).name_to_key ≡ some k
unfolding release_by_key
release_by_key-others key n k r h e other = elim (Option-cases (lookup key r.key_to_name)) [
  | inl free ↦ ground (arith, free, e)
  | inr (m, paired) ↦
      ground (arith, paired, e, h.backward m key paired, lookup-erase m n r.name_to_key, eq_iff m n)
]

module _ {V : Type 0} (id name : V → String) (m : Map V) (r : Registrar)
    (h : Registered id name m r) where
  pub Registered-erase : (k : String) → Registered id name (erase k m) r
  Registered-erase k = record {
    keyed = λ j v e. ground (arith, lookup-erase k j m, e, h.keyed j v);
    named = λ j v e. ground (arith, lookup-erase k j m, e, h.named j v);
    inverse = h.inverse;
  }

  -- an entry leaves the store, and then its name is released
  pub Registered-release :
      (k : String) → lookup k m ≡ none → Registered id name m (release_by_key k r)
  Registered-release k gone = record {
    keyed = h.keyed;
    named = λ j v e.
        release_by_key-others k (name v) j r h.inverse (h.named j v e)
          (λ same. ground (arith, gone, e, same));
    inverse = (release-IsBijection k k r h.inverse).1;
  }

  -- names change only where no entry has one
  pub Registered-names :
      (free : String) (r' : Registrar)
      → lookup free r.name_to_key ≡ none
      → ((n : String) → n ≢ free → lookup n r'.name_to_key ≡ lookup n r.name_to_key)
      → IsBijection r'
      → Registered id name m r'
  Registered-names free r' unused others b = record {
    keyed = h.keyed;
    named = λ j v e.
        let held : lookup (name v) r.name_to_key ≡ some j = h.named j v e in
        ground (arith, held, others (name v) (λ same. ground (arith, held, unused, same)));
    inverse = b;
  }

  -- a new entry whose name was free and is reserved for its id
  pub Registered-insert :
      (v : V) (r' : Registrar)
      → lookup (name v) r.name_to_key ≡ none
      → lookup (name v) r'.name_to_key ≡ some (id v)
      → ((n : String) → n ≢ name v → lookup n r'.name_to_key ≡ lookup n r.name_to_key)
      → IsBijection r'
      → Registered id name (insert (id v) v m) r'
  Registered-insert v r' unused reserved others b =
      let old : Registered id name m r' = Registered-names (name v) r' unused others b in
      record {
        keyed =
            λ j u e. ground (arith, lookup-insert (id v) j v m, e, eq_iff (id v) j, h.keyed j u);
        named = λ j u e.
            ground (arith, lookup-insert (id v) j v m, e, eq_iff (id v) j, old.named j u, reserved);
        inverse = b;
      }
