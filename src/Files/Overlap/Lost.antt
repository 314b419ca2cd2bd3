-- ===== src/Files/Overlap/Lost.antt =====
-- Lost updates: downloads that overlap and are counted once between them.
use expire_share_api.Prelude.{
  start, step, ℕ, zero, suc, ◌≤◌, ◌<◌, pos, String, some, List, ◌≡◌, refl, ap, arith,
}
use expire_share_api.Domain.{File}
use expire_share_api.World.{Platform}
use expire_share_api.Repo.{find_row, is_live}
use expire_share_api.Repo.Table.{row_at, IsValid, with_downloads, row_at-set_downloads, find_live}
use expire_share_api.Files.Overlap.{
  waiting, has_read, served, Shared, reads, ends, read, end, Reaches, fresh, after_read-some,
  end_download-kept, same_itself,
}

module _ (p : Platform) (alias : String) (rows : List File) (now : ℕ) (f : File) (m : ℕ) where
  -- `k` downloads have read the counter.
  record AllRead (k : ℕ) : Type 0 where
    at_read : Shared
    reached : Reaches p alias (fresh p alias rows) at_read
    unchanged : at_read.rows ≡ rows
    those : (i : ℕ) → i < k → at_read.phase i ≡ has_read (pos (suc (suc m)))
    rest : (i : ℕ) → k ≤ i → at_read.phase i ≡ waiting

  abbrev lower : File
  lower = record f { downloads_left = pos (suc m) }

  -- The first `j` of them have written.
  record Progressed (k j : ℕ) : Type 0 where
    at_write : Shared
    reached : Reaches p alias (fresh p alias rows) at_write
    row : with_downloads (pos (suc m)) (row_at p alias at_write.rows) ≡ some lower
    counted : 0 < j → row_at p alias at_write.rows ≡ some lower
    done : (i : ℕ) → i < j → at_write.phase i ≡ served
    left : (i : ℕ) → j ≤ i → i < k → at_write.phase i ≡ has_read (pos (suc (suc m)))

  module _ (valid : IsValid p rows) (live : find_row (is_live p now alias) rows ≡ some f)
      (many : f.downloads_left ≡ pos (suc (suc m))) where
    all_read : (k : ℕ) → AllRead k
    all_read zero = record {
      at_read = fresh p alias rows;
      reached = start;
      unchanged = refl;
      those = λ i h. ground arith;
      rest = λ i h. refl;
    }
    all_read (suc k) =
        let a = all_read k in
        let e : find_row (is_live p now alias) a.at_read.rows ≡ some f = rw a.unchanged live in
        let q = after_read-some f _ e (rw many (ground arith)) in
        record {
          at_read = reads p alias k now a.at_read;
          reached = step a.reached (read k now (a.rest k (omega arith)));
          unchanged = a.unchanged;
          those = λ i h. ground (arith, q, many, a.those i);
          rest = λ i h. ground (arith, a.rest i);
        }

    some_written : (k j : ℕ) → j ≤ k → Progressed k j
    some_written k zero h =
        let a = all_read k in
        record {
          at_write = a.at_read;
          reached = a.reached;
          row = rw a.unchanged (rw (find_live p alias now rows f valid live).0 refl);
          counted = λ z. ground arith;
          done = λ i z. ground arith;
          left = λ i z y. a.those i y;
        }
    some_written k (suc j) h =
        let b = some_written k j (omega arith) in
        let n = pos (suc (suc m)) in
        let e = end_download-kept p alias now n b.at_write.rows (ground arith) in
        let low : row_at p alias (ends p alias j now n b.at_write).rows ≡ some lower = rw e (
          rw (row_at-set_downloads p alias alias (pos (suc m)) b.at_write.rows, same_itself p alias)
            b.row) in
        record {
          at_write = ends p alias j now n b.at_write;
          reached = step b.reached (end j now n (b.left j (omega arith) (omega arith)));
          row = rw low refl;
          counted = λ z. low;
          done = λ i z. ground (arith, ap (λ x. x.0) e, b.done i);
          left = λ i z y. ground (arith, b.left i);
        }

    -- On a valid table with a live row of the alias that has two downloads left or more: any number
    -- of downloads, one or more, can run so that all of them are served and the counter has gone
    -- down by one.
    pub updates_lost :
        (k : ℕ)
        → (t : Shared) × Reaches p alias (fresh p alias rows) t
          × ((i : ℕ) → i < suc k → t.phase i ≡ served)
          × (row_at p alias t.rows ≡ some (record f { downloads_left = pos (suc m) }))
    updates_lost k =
        let b = some_written (suc k) (suc k) (omega arith) in
        (b.at_write, b.reached, b.done, b.counted (omega arith))
