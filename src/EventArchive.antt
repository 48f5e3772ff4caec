-- ===== src/EventArchive.antt =====
-- contracts/predict-iq/src/modules/event_archive.rs: the ids of the pruned markets.
use Prim.Native.Nat.{zero}
use predict_iq.Env.{Host, bump_ttl, M, ◌>>=◌, ◌>>◌, gets, pure, add_u64, modify, Entry}
use predict_iq.Prelude.{ℕ, List, get_or, [], min, ◌-◌, put, ◌+◌, some, suc, none, ◌∷◌}

abbrev pub archive_ttl_threshold : ℕ
archive_ttl_threshold = 100

abbrev pub archive_ttl_extend : ℕ
archive_ttl_extend = 1000

-- `MAX_PAGE_LIMIT` of modules/queries.rs.
abbrev pub max_page_limit : ℕ
max_page_limit = 100

module _ {host : Host} where
  unfoldable pub archive_market : ℕ → M host (Unit {0})
  unfolding bump_ttl
  archive_market market_id = do
    before ← gets (λ e. get_or e.archive.archived_market_count 0)
    count ← add_u64 before 1
    modify λ e. record e {
      archive = record e.archive {
        archived_market = put e.archive.archived_market count (some market_id);
      };
    }
    bump_ttl (Entry.archived_market count) archive_ttl_threshold archive_ttl_extend
    modify λ e. record e { archive = record e.archive { archived_market_count = some count } }
    bump_ttl Entry.archived_market_count archive_ttl_threshold archive_ttl_extend

  -- The loop over `n` keys from `i`.
  unfoldable pub archived_from : ℕ → ℕ → M host (List ℕ)
  unfolding bump_ttl
  archived_from zero i = pure []
  archived_from (suc n) i =
      let rest = archived_from n (i + 1) in
      do
        found ← gets (λ e. e.archive.archived_market i)
        elim found [
          | none ↦ rest
          | some id ↦ do
            bump_ttl (Entry.archived_market i) archive_ttl_threshold archive_ttl_extend
            ids ← rest
            pure (id ∷ ids)
        ]

  unfoldable pub get_archived_market_ids : ℕ → ℕ → M host (List ℕ)
  unfolding archived_from
  get_archived_market_ids offset limit = do
    count ← gets (λ e. get_or e.archive.archived_market_count 0)
    let start = min offset count
    end ← add_u64 start (min limit max_page_limit)
    archived_from (min end count - start) (start + 1)

  unfoldable pub get_archived_count : M host ℕ
  get_archived_count = gets λ e. get_or e.archive.archived_market_count 0
