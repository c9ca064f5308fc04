-- ===== src/ValidityProver/Versions.antt =====
-- The tables of the validity prover's database: a value for each timestamp and key. The queries of
-- validity-prover/src/trees/merkle_tree are a parameter; what they rely on is in `VersionsLaws`.
pub mod Laws
pub mod Rows
use intmax.Base.{
  ℕ, zero, suc, ◌≡◌, ◌&&◌, Bool, true, false, List, Option, none, some, Eq, if◌then◌else◌, ◌==◌,
  ltb, any,
}
use intmax.Base.Map
use intmax.Base.Map.{HashMap}

pub record Versions (K : Type 0) (V : Type 0) : Type 1 where
  pub Table : Type 0
  pub empty : Table
  -- `INSERT .. ON CONFLICT (.., timestamp, key) DO UPDATE SET ..`.
  pub save : ℕ → K → V → Table → Table
  -- `SELECT .. WHERE key = .. AND timestamp <= .. ORDER BY timestamp DESC LIMIT 1`.
  pub latest : ℕ → K → Table → Option V
  -- `SELECT .. WHERE key = ANY(..) AND timestamp <= .. ORDER BY key, timestamp DESC`.
  pub select : ℕ → List K → Table → HashMap K V
  -- `DELETE .. WHERE timestamp >= ..`.
  pub delete_from : ℕ → Table → Table

-- The value at the last timestamp, up to a given one, that has one.
unfoldable pub search_back : {V : Type 0} → (ℕ → Option V) → ℕ → Option V
search_back f zero = f zero
search_back f (suc n) = elim (f (suc n)) [ some v ↦ some v | none ↦ search_back f n ]

module _ {K V : Type 0} ⦃e : Eq K⦄ where
  -- The rows of a table, and what the statements do to them.
  pub record VersionsLaws (d : Versions K V) : Type 0 where
    pub row : ℕ → K → d.Table → Option V
    pub row_empty : (t : ℕ) (k : K) → row t k d.empty ≡ none
    pub row_save :
        (t u : ℕ) (k l : K) (v : V) (s : d.Table)
        → row t k (d.save u l v s)
          ≡ (if e.beq k l then (if t == u then some v else row t k s) else row t k s)
    pub row_delete :
        (t u : ℕ) (k : K) (s : d.Table)
        → row t k (d.delete_from u s) ≡ (if ltb t u then row t k s else none)
    pub latest_lem : (t : ℕ) (k : K) (s : d.Table) → d.latest t k s ≡ search_back (λ u. row u k s) t
    -- The first row of a key is its latest.
    pub select_first :
        (t : ℕ) (k : K) (ks : List K) (s : d.Table)
        → Map.lookup k (d.select t ks s) ≡ (if any (e.beq k) ks then d.latest t k s else none)
