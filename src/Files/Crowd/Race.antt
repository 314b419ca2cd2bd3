-- ===== src/Files/Crowd/Race.antt =====
-- The quota is no bound for uploads that overlap.
use expire_share_api.Prelude.{
  ℕ, zero, suc, ◌+◌, ◌≤◌, ◌<◌, ℤ, eqb_ℤ-refl, false, none, List, ◌≡◌, refl, ap, arith, ◌==◌, start,
  step,
}
use expire_share_api.Domain.{File, AddFile, Permissions, UserRole}
use expire_share_api.World.{Platform, ok}
use expire_share_api.Repo.{new_row}
use expire_share_api.Repo.Table.{row_at, row_at-append}
use expire_share_api.Repo.Transactions.{stat_of}
use expire_share_api.Files.{check_upload_quote}
use expire_share_api.Files.Quota.{stat_of-append}
use expire_share_api.Files.Crowd.{
  waiting, allowed, stored, Shared, check_stat, checks, stores, check, store, Reaches, fresh,
  store_row-new,
}

module _ (p : Platform) (cfg : Permissions) (adds : ℕ → AddFile) (roles : ℕ → List UserRole)
    (rows : List File) (user : ℤ) where
  -- The uploads are one user's, each alone is within the quota, and their aliases are new and differ.
  pub record Ready (k : ℕ) : Type 0 where
    pub owner : (i : ℕ) → (adds i).user_id ≡ user
    pub within :
        (i : ℕ) → check_upload_quote cfg (stat_of user rows) (adds i).filesize (roles i) ≡ ok tt
    pub new : (i : ℕ) → row_at p (adds i).alias rows ≡ none
    pub apart :
        (i j : ℕ) → i < j → j < k → (p.weight (adds i).alias == p.weight (adds j).alias) ≡ false

  record Checked (k : ℕ) : Type 0 where
    at_check : Shared
    reached : Reaches p cfg adds roles (fresh p cfg adds roles rows) at_check
    unchanged : at_check.rows ≡ rows
    those : (i : ℕ) → i < k → at_check.phase i ≡ allowed
    rest : (i : ℕ) → k ≤ i → at_check.phase i ≡ waiting

  record Filled (k j : ℕ) : Type 0 where
    at_store : Shared
    reached : Reaches p cfg adds roles (fresh p cfg adds roles rows) at_store
    count : (stat_of user at_store.rows).count ≡ (stat_of user rows).count + j
    free : (i : ℕ) → j ≤ i → i < k → row_at p (adds i).alias at_store.rows ≡ none
    done : (i : ℕ) → i < j → at_store.phase i ≡ stored
    left : (i : ℕ) → j ≤ i → i < k → at_store.phase i ≡ allowed

  module _ (n : ℕ) (r : Ready n) (now : ℕ) where
    passes : (i : ℕ) (o : List File) → o ≡ rows → check_stat p cfg adds roles i o ≡ allowed
    unfolding check_stat
    passes i o e = rw (e, r.owner i, r.within i) refl

    checked : (k : ℕ) → Checked k
    checked zero = record {
      at_check = fresh p cfg adds roles rows;
      reached = start;
      unchanged = refl;
      those = λ i h. ground arith;
      rest = λ i h. refl;
    }
    checked (suc k) =
        let a = checked k in
        let q : check_stat p cfg adds roles k a.at_check.rows ≡ allowed =
          passes k a.at_check.rows a.unchanged in
        record {
          at_check = checks p cfg adds roles k a.at_check;
          reached = step a.reached (check k (a.rest k (omega arith)));
          unchanged = a.unchanged;
          those = λ i h. ground (arith, q, a.those i);
          rest = λ i h. ground (arith, a.rest i);
        }

    filled : (j : ℕ) → j ≤ n → Filled n j
    filled zero h =
        let a = checked n in
        record {
          at_store = a.at_check;
          reached = a.reached;
          count = rw a.unchanged (omega arith);
          free = λ i z y. rw a.unchanged (r.new i);
          done = λ i z. ground arith;
          left = λ i z y. a.those i y;
        }
    filled (suc j) h =
        let b = filled j (omega arith) in
        let e =
          store_row-new p cfg adds roles j now b.at_store.rows
            (b.free j (omega arith) (omega arith)) in
        let f = new_row p (adds j) now in
        record {
          at_store = stores p cfg adds roles j now b.at_store;
          reached = step b.reached (store j now (b.left j (omega arith) (omega arith)));
          count = rw e (
              ground (
                arith,
                b.count,
                stat_of-append user b.at_store.rows f (rw (r.owner j) (eqb_ℤ-refl user)),
              ));
          free = λ i z y. rw e (
              ground
                (arith, row_at-append p (adds i).alias b.at_store.rows f, b.free i, r.apart j i));
          done = λ i z. ground (arith, ap (λ x. x.0) e, b.done i);
          left = λ i z y. ground (arith, b.left i);
        }

    -- Uploads of one user, each of which the quota admits beside the rows that are there, and whose
    -- aliases are new and differ: however many they are, they can run so that all of them are stored
    -- and the user has as many files more.
    pub quota_overrun :
        (t : Shared) × Reaches p cfg adds roles (fresh p cfg adds roles rows) t
        × ((i : ℕ) → i < n → t.phase i ≡ stored)
        × ((stat_of user t.rows).count ≡ (stat_of user rows).count + n)
    quota_overrun = let b = filled n (omega arith) in (b.at_store, b.reached, b.done, b.count)
