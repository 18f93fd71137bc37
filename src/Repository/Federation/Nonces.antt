-- ===== src/Repository/Federation/Nonces.antt =====
-- How the nonce table changes: claims add a row, the purge deletes old ones.
use hush_net_backend.Prelude.{
  ℕ, ◌+◌, ◌≤◌, String, Bool, true, ◌&&◌, ◌≡◌, inl, inr, List, [], ◌∷◌, ◌==◌, exists_where,
  delete_where, exists_where-append, arith, Bool-cases, subst, sym, ap, ◌∙◌, ==_iff,
}
use text.Mathlib.TextPositions.{eq_refl}
use hush_net_backend.Models.{UsedNonce}
use hush_net_backend.Store.{Db, World, ok, Call, call_of, query}
use hush_net_backend.Store.Keeps.{Keeps, KeepsDb, Keeps-query, query-keeps_at, keeps_rules}
use hush_net_backend.Store.Inversion.{bind-eq-ok, query-eq-ok, pure-eq-ok}
use hush_net_backend.Repository.Federation.{
  is_nonce, is_expired, claim_statement, claim_nonce, purge_statement, purge_expired_nonces,
  upsert_node_statement, upsert_federation_node, get_federation_node,
}

-- the row that a claim at time `t` stores
abbrev pub is_claim : String → String → ℕ → UsedNonce → Bool
is_claim node_id nonce t row = is_nonce node_id nonce row && row.used_at == t

-- The claim of `nonce` by `node_id` at time `t` is on record.
pub record IsClaimed (node_id nonce : String) (t : ℕ) (db : Db) : Type 0 where
  pub found : exists_where (is_claim node_id nonce t) db.used_node_nonces ≡ true

module _ (node_id nonce : String) (t : ℕ) where
  exists-claim-nonce :
      (rows : List UsedNonce)
      → exists_where (is_claim node_id nonce t) rows ≡ true
      → exists_where (is_nonce node_id nonce) rows ≡ true
  exists-claim-nonce [] h = h
  exists-claim-nonce (r ∷ rows) h = ground (arith, exists-claim-nonce rows)

  -- A row that is not old survives the purge.
  exists-claim-delete :
      (now : ℕ) (rows : List UsedNonce)
      → now ≤ t + 300
      → exists_where (is_claim node_id nonce t) rows ≡ true
      → exists_where (is_claim node_id nonce t) (delete_where (is_expired now) rows) ≡ true
  exists-claim-delete now [] l h = h
  exists-claim-delete now (r ∷ rows) l h = ground (arith, exists-claim-delete now rows l)

  claim-IsClaimed :
      (other_id other : String)
      → KeepsDb (IsClaimed node_id nonce t) (claim_statement other_id other)
  unfolding claim_statement
  claim-IsClaimed other_id other c db h =
      elim (Bool-cases (exists_where (is_nonce other_id other) db.used_node_nonces)) [
        | inl seen ↦ rw seen h
        | inr new ↦ rw new (record { found = rw exists_where-append (rw h.found) })
      ]

  upsert-IsClaimed :
      (id api_url key : String)
      → KeepsDb (IsClaimed node_id nonce t) (upsert_node_statement id api_url key)
  unfolding upsert_node_statement
  upsert-IsClaimed id api_url key c db h = record { found = ground (arith, h.found) }

  pub claim_nonce-IsClaimed :
      (other_id other : String) → Keeps (IsClaimed node_id nonce t) (claim_nonce other_id other)
  unfolding claim_nonce
  claim_nonce-IsClaimed other_id other =
      search (keeps_rules, Keeps-query, claim-IsClaimed other_id other)

  pub upsert_federation_node-IsClaimed :
      (id api_url key : String)
      → Keeps (IsClaimed node_id nonce t) (upsert_federation_node id api_url key)
  unfolding upsert_federation_node
  upsert_federation_node-IsClaimed id api_url key =
      Keeps-query (upsert_node_statement id api_url key) (upsert-IsClaimed id api_url key)

  pub get_federation_node-IsClaimed :
      (id : String) → Keeps (IsClaimed node_id nonce t) (get_federation_node id)
  unfolding get_federation_node
  get_federation_node-IsClaimed id = Keeps-query _ (λ c db h. h)

  -- The purge drops the claim only when it is older than five minutes.
  pub purge-IsClaimed :
      (w : World)
      → IsClaimed node_id nonce t w.db
      → w.env.db_now w.calls ≤ t + 300
      → IsClaimed node_id nonce t (purge_expired_nonces w).1.db
  unfolding purge_expired_nonces purge_statement
  purge-IsClaimed w h l =
      query-keeps_at (IsClaimed node_id nonce t) purge_statement w
        (record {
          found = exists-claim-delete (w.env.db_now w.calls) w.db.used_node_nonces l h.found;
        })
        h

  -- A claim on record is not granted again.
  pub claim_nonce_seen :
      (w v : World)
      → IsClaimed node_id nonce t w.db
      → ¬ (claim_nonce node_id nonce w ≡ (ok true, v))
  unfolding claim_nonce claim_statement
  claim_nonce_seen w v h e =
      let (rows, u, run, rest) = bind-eq-ok (query (claim_statement node_id nonce)) _ e in
      let (said, _) = query-eq-ok (claim_statement node_id nonce) run in
      ground (
        arith,
        h.found,
        exists-claim-nonce w.db.used_node_nonces,
        said,
        pure-eq-ok (rows == 1) rest,
      )

claim-fresh :
    (node_id nonce : String) (c : Call) (db : Db)
    → (claim_statement node_id nonce c db).0 ≡ ok 1
    → IsClaimed node_id nonce c.now (claim_statement node_id nonce c db).1
unfolding claim_statement
claim-fresh node_id nonce c db h =
    elim (Bool-cases (exists_where (is_nonce node_id nonce) db.used_node_nonces)) [
      | inl seen ↦ ground arith
      | inr new ↦ rw new (record {
        found = ground (
          arith,
          exists_where-append (is_claim node_id nonce c.now) db.used_node_nonces
              (record { nonce = nonce; node_id = node_id; used_at = c.now } ∷ []),
          eq_refl nonce,
          eq_refl node_id,
        );
      })
    ]

-- A granted claim is on record, at the database's time.
pub claim_nonce_fresh :
    (node_id nonce : String) (w v : World)
    → claim_nonce node_id nonce w ≡ (ok true, v)
    → IsClaimed node_id nonce (w.env.db_now w.calls) v.db
unfolding claim_nonce
claim_nonce_fresh node_id nonce w v e =
    let (rows, u, run, rest) = bind-eq-ok (query (claim_statement node_id nonce)) _ e in
    let (said, next) = query-eq-ok (claim_statement node_id nonce) run in
    let (granted, last) = pure-eq-ok (rows == 1) rest in
    subst (λ (x : World). IsClaimed node_id nonce (w.env.db_now w.calls) x.db) (sym next ∙ last)
      (claim-fresh node_id nonce (call_of w) w.db (said ∙ ap ok ((==_iff rows 1).0 granted)))
