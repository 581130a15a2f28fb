-- ===== src/Eth/Retriever/Emptiness.antt =====
-- Retrieve of pkg/super_node/eth/cid_retriever.go: its flag that nothing was found.
use vulcanize_db.Prelude.{
  ℕ, ◌≡◌, refl, ap, ◌↔◌, String, Bool, true, false, List, [], ◌∷◌, All, Bool-cases, inl, inr,
  if◌then◌else◌, length, suc,
}
use vulcanize_db.Prelude.Int.{ℤ}
use vulcanize_db.Go.{ok, >>=-eq-ok}
use vulcanize_db.Eth.{SubscriptionSettings}
use vulcanize_db.Eth.Retriever.{
  Database, HeaderModel, CidWrapper, is_bare, retrieve_header, retrieve_loop, retrieve,
}

abbrev pub AllBare : List CidWrapper → Type 0
AllBare cws = All (λ cw. is_bare cw ≡ true) cws

module _ (address_key : String → ℕ) (db : Database) (f : SubscriptionSettings) (number : ℤ) where
  retrieve_loop-AllBare :
      (headers : List HeaderModel) (empty : Bool) (r : List CidWrapper × Bool)
      → retrieve_loop address_key db f number headers empty ≡ ok r
      → (length r.0 ≡ length headers) × ((r.1 ≡ true) ↔ ((empty ≡ true) × AllBare r.0))
  unfolding retrieve_loop
  retrieve_loop-AllBare [] empty r h =
      let same : ([], empty) ≡ r = cc in rw (← same) (refl, (λ e. (e, tt), λ p. p.0))
  retrieve_loop-AllBare (header ∷ rest) empty r h =
      let (cw, h1, h2) = >>=-eq-ok (retrieve_header address_key db f number header) _ h in
      let next : Bool = if is_bare cw then empty else false in
      let (later, h3, h4) = >>=-eq-ok (retrieve_loop address_key db f number rest next) _ h2 in
      let (same_length, iff) = retrieve_loop-AllBare rest next later h3 in
      let same : (cw ∷ later.0, later.1) ≡ r = cc in
      rw (← same) (
        ap suc same_length,
        elim (Bool-cases (is_bare cw)) [
          | inl bare ↦ (
            λ e. let p = iff.0 e in ((rw (bare) at p.0), (bare, p.1)),
            λ p. iff.1 (rw (bare) p.0, p.1.1),
          )
          | inr full ↦ (λ e. let p = iff.0 e in let no = rw (full) at p.0 in cc, λ p. cc)
        ],
      )

  -- Retrieve reports that it found nothing exactly when no header of the height has anything to
  -- fetch.
  retrieve-AllBare :
      (r : List CidWrapper × Bool)
      → retrieve address_key db f number ≡ ok r
      → (r.1 ≡ true) ↔ AllBare r.0
  unfolding retrieve
  retrieve-AllBare r h =
      let (headers, h1, h2) = >>=-eq-ok (db.headers_at number) _ h in
      let iff = (retrieve_loop-AllBare headers true r h2).1 in
      (λ e. (iff.0 e).1, λ b. iff.1 (refl, b))
