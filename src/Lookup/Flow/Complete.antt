-- ===== src/Lookup/Flow/Complete.antt =====
-- What a client that ends well has read, over any transport.
use urma_rs.Base.{
  ℕ, ◌+◌, ◌-◌, ◌^◌, ◌<◌, ◌≡◌, refl, ap, ◌∙◌, sym, subst, min, max, List, [], ◌∷◌, Option, some, All,
  arith,
}
use urma_rs.Error.{Result, ok}
use urma_rs.Common.Http.{Http, Net, NetIo, ◌>>=◌, continue, send_retry, json_retry}
use urma_rs.Lookup.Master.{OwnerInfo}
use urma_rs.Lookup.Master.Ranges.{total_records}
use urma_rs.Lookup.Flow.{
  Request, Body, ready, done, parse_directory, Transport, ClientCfg, total_of, import_all,
  fetch_records, fetch_directory, register_records, run_client,
}
use urma_rs.Lookup.Flow.Planned.{
  Read, IsPlanned, rids, outside, outside_from, run_reads, fetch_records-Plan, bind_ok,
}

total_of-total_records :
    (os : List OwnerInfo) → total_records os < 2 ^ 32 → total_of os ≡ total_records os
unfolding total_of
total_of-total_records [] h = refl
total_of-total_records (o ∷ os) h = omega (arith, total_of-total_records os (omega (arith, h)))

outside_from-start :
    (first cnt total : ℕ) → outside_from first cnt total 0 ≡ outside first cnt total
outside_from-start first cnt total =
    let whole : min first total - 0 ≡ min first total = omega arith in
    let behind : max 0 (first + cnt) ≡ first + cnt = omega arith in rw (whole, behind) refl

bind_known :
    {Q L A B : Type 0} (m : NetIo Q L A) (f : A → NetIo Q L B) (n : Net Q L) (a : A) (b : B)
    → (m n).0 ≡ some (ok a)
    → ((m >>= f) n).0 ≡ some (ok b)
    → (f a (m n).1).0 ≡ some (ok b)
bind_known m f n a b e h = subst (λ r. (continue r f (m n).1).0 ≡ some (ok b)) e h

module _ {S R : Type 0} (tr : Transport S R) (http : Http Request Body) (cfg : ClientCfg)
    (fuel my_first : ℕ) (owners : List OwnerInfo) where
  -- The directory, asked for in a state of the client, and the state in which the walk begins.
  abbrev pub asks : Net Request S → Option (Result (List OwnerInfo)) × Net Request S
  asks n = json_retry http parse_directory fuel ready n

  abbrev pub imported : Net Request S → Net Request S
  imported n = (import_all tr my_first cfg.records 0 owners (asks n).1).1

  -- What a walk from `n` on has read, one read after the other.
  abbrev pub HasRead : List R → Net Request S → Type 0
  HasRead got n =
      (plan : List Read) × All (IsPlanned owners) plan
      × (rids plan ≡ outside my_first cfg.records (total_records owners))
      × ((run_reads tr plan n).0 ≡ some (ok got))

  fetch_directory-HasRead :
      (n : Net Request S) (got : List R)
      → my_first + cfg.records < 2 ^ 32
      → total_records owners < 2 ^ 32
      → (asks n).0 ≡ some (ok owners)
      → (fetch_directory tr http cfg fuel my_first n).0 ≡ some (ok got)
      → HasRead got (imported n)
  unfolding fetch_directory
  fetch_directory-HasRead n got fits small dir e =
      let told = (asks n).1 in
      let e1 = bind_known (json_retry http parse_directory fuel ready) _ n owners got dir e in
      let (u, through, e2) = bind_ok (import_all tr my_first cfg.records 0 owners) _ told got e1 in
      let total = total_records owners in
      let walked : (fetch_records tr my_first cfg.records owners total 0 (imported n)).0
          ≡ some (ok got) =
        subst
          (λ k. (fetch_records tr my_first cfg.records owners k 0 (imported n)).0 ≡ some (ok got))
          (total_of-total_records owners small) e2 in
      let found =
        fetch_records-Plan tr my_first cfg.records owners total fits total 0 (imported n) got
          (omega arith) walked in
      (
        found.plan,
        found.planned,
        found.outside_range ∙ outside_from-start my_first cfg.records total,
        ap (λ (r : Option (Result (List R)) × Net Request S). r.0) (sym found.same) ∙ walked,
      )

  -- Over any transport and any answers to its requests, where the master gave the client this first
  -- record and this directory, and the end of its own range and the number of records of the
  -- directory are below 2^32, a client that ends well has made, once its imports are over, one read
  -- after another: one for each record below that number that is outside its own range, in
  -- ascending order, each with the index of an entry of the directory, that entry, whose range
  -- contains the record, and the number of the record. Its result is what these reads yield.
  pub run_client-HasRead :
      (n : Net Request S) (got : List R)
      → let registered = register_records tr http cfg fuel n in
        registered.0 ≡ some (ok my_first)
        → (asks registered.1).0 ≡ some (ok owners)
        → my_first + cfg.records < 2 ^ 32
        → total_records owners < 2 ^ 32
        → (run_client tr http cfg fuel n).0 ≡ some (ok got)
        → HasRead got (imported registered.1)
  unfolding run_client
  run_client-HasRead n got reg dir fits small e =
      let registered = register_records tr http cfg fuel n in
      let e1 = bind_known (register_records tr http cfg fuel) _ n my_first got reg e in
      let (gots, fetched, e2) =
        bind_ok (fetch_directory tr http cfg fuel my_first) _ registered.1 got e1 in
      let after = (fetch_directory tr http cfg fuel my_first registered.1).1 in
      let (r, released, e3) = bind_ok (send_retry http fuel done) _ after got e2 in
      let same : gots ≡ got = cc in
      subst (λ (l : List R). HasRead l (imported registered.1)) same
        (fetch_directory-HasRead registered.1 gots fits small dir fetched)
