-- ===== src/Headers/Populating.antt =====
-- PopulateMissingHeaders against the table: the missing numbers are filled.
use vulcanize_db.Prelude.{
  ℕ, ◌≡◌, refl, sym, ap, ◌∙◌, subst, inl, inr, ◌⊎◌, String, Bool, true, false, ◌||◌, not, List, [],
  ◌∷◌, keep, any_of, some, ◌==◌, ==_sym, string_eq, All, All-imp, is_empty, is_empty_iff,
  Bool-cases, arith,
}
use vulcanize_db.Prelude.Int.{ℤ, int_eq}
use vulcanize_db.Go.{Result, ok, err, panic}
use vulcanize_db.History.{err_valid_header_exists}
use vulcanize_db.Headers.{
  Header, HeaderRow, HeaderRepository, is_at, stored, get_header_hash, create_or_update_header,
  update_headers, next_header, missing_block_numbers, populate,
}
use vulcanize_db.Headers.Filling.{Holds, no_refusals, others, create_or_update_header-Holds}

get_header_hash-stored :
    (node : String) (number : ℤ) (hash : String) (rows : List HeaderRow)
    → get_header_hash node number rows ≡ some hash
    → stored node number rows ≡ true
unfolding get_header_hash
get_header_hash-stored node number hash [] h = cc
get_header_hash-stored node number hash (row ∷ rows) h =
    ground (arith, get_header_hash-stored node number hash rows)

stored-others :
    (node : String) (number other : ℤ) (rows : List HeaderRow)
    → (number == other) ≡ false
    → stored node number (others node other rows) ≡ stored node number rows
stored-others node number other [] h = refl
stored-others node number other (row ∷ rows) h = ground (
  arith,
  stored-others node number other rows,
  int_eq.equal_iff row.block_number number,
  int_eq.equal_iff row.block_number other,
  int_eq.equal_iff number other,
)

left : (a b : Bool) → a || b ≡ true → b ≡ false → a ≡ true
left a b h k = ground arith

-- A number stays stored, and the header's becomes so.
Holds-stored :
    (header : Header) (before after : HeaderRepository) (number : ℤ)
    → Holds header before after
    → stored before.node number before.rows || (header.block_number == number) ≡ true
    → stored before.node number after.rows ≡ true
Holds-stored header before after number held h = elim (Bool-cases (number == header.block_number)) [
  | inl same ↦
      let equal : number ≡ header.block_number =
        (int_eq.equal_iff number header.block_number).0 same in
      rw (equal) (
        get_header_hash-stored before.node header.block_number header.hash after.rows
          held.hash_stored)
  | inr other ↦
      let was : stored before.node number before.rows ≡ true =
        left (stored before.node number before.rows) (header.block_number == number) h
          (==_sym header.block_number number ∙ other) in
      sym (stored-others before.node number header.block_number after.rows other)
      ∙ ap (any_of (is_at before.node number)) held.others_kept
      ∙ stored-others before.node number header.block_number before.rows other
      ∙ was
]

either :
    (a b c : Bool) (after : Bool)
    → a || (b || c) ≡ true
    → (a || b ≡ true → after ≡ true)
    → after || c ≡ true
either true b c after h f = rw (f refl) refl
either false true c after h f = rw (f refl) refl
either false false c true h f = refl
either false false c false h f = h

next_header-eq :
    (rep : HeaderRepository) (result : Result ℕ) (id : ℕ)
    (rest : HeaderRepository → HeaderRepository × Result (Unit {0}))
    → (result ≡ ok id) ⊎ (result ≡ err err_valid_header_exists)
    → next_header (rep, result) rest ≡ rest rep
next_header-eq rep panic id rest (inl h) = cc
next_header-eq rep panic id rest (inr h) = cc
next_header-eq rep (ok other) id rest h = refl
next_header-eq rep (err e) id rest (inl h) = cc
next_header-eq rep (err e) id rest (inr h) =
    let same : e ≡ err_valid_header_exists = cc in
    rw ((string_eq.equal_iff e err_valid_header_exists).1 same) refl

-- What holds after the loop over the headers that a node returned.
update_headers-stored :
    (headers : List Header) (rep : HeaderRepository)
    → ((update_headers no_refusals headers rep).1 ≡ ok tt)
      × ((number : ℤ)
          → stored rep.node number rep.rows
              || any_of (λ header. header.block_number == number) headers
            ≡ true
          → stored rep.node number (update_headers no_refusals headers rep).0.rows ≡ true)
unfolding update_headers
update_headers-stored [] rep = (refl, λ number h. ground arith)
update_headers-stored (header ∷ headers) rep =
    let (held, answer) = create_or_update_header-Holds header rep in
    let next = (create_or_update_header no_refusals header rep).0 in
    let (done, later) = update_headers-stored headers next in
    rw
      (next_header-eq next (create_or_update_header no_refusals header rep).1 rep.next_id
        (update_headers no_refusals headers) answer)
      (
        done,
        λ number h.
            subst
              (λ node. stored node number (update_headers no_refusals headers next).0.rows ≡ true)
              held.same_node
              (later number (
                subst
                  (λ node.
                    stored node number next.rows
                      || any_of (λ other. other.block_number == number) headers
                    ≡ true)
                  (sym held.same_node)
                  (either (stored rep.node number rep.rows) (header.block_number == number) _ _ h
                    (Holds-stored header rep next number held)))),
      )

keep-none :
    {A : Type 0} (p : A → Bool) (xs : List A)
    → All (λ x. p x ≡ true) xs
    → keep (λ x. not (p x)) xs ≡ []
keep-none p [] h = refl
keep-none p (x ∷ xs) h = ground (arith, keep-none p xs h.1)

-- What is kept has a property, and so has what is not.
All-from_keep :
    {A : Type 0} {P : A → Type 0} (p : A → Bool) (xs : List A)
    → ((x : A) → p x ≡ true → P x)
    → All P (keep (λ x. not (p x)) xs)
    → All P xs
All-from_keep p [] yes_case h = tt
All-from_keep p (x ∷ xs) yes_case h = elim (Bool-cases (p x)) [
  | inl on ↦ (yes_case x on, All-from_keep p xs yes_case (rw on at h))
  | inr off ↦ let both = (rw off at h) in (both.0, All-from_keep p xs yes_case both.1)
]

or_true : (b : Bool) → b || true ≡ true
or_true true = refl
or_true false = refl

-- When the database refuses nothing, its node is the one that is asked about, and the node returns
-- a header for each missing number: PopulateMissingHeaders succeeds, and then no number from the
-- start to the last block is missing.
pub populate_complete :
    (start last : ℤ) (get_headers : List ℤ → List Header) (rep : HeaderRepository)
    → (let numbers = missing_block_numbers start last rep.node rep.rows in
        All
          (λ number. any_of (λ header. header.block_number == number) (get_headers numbers) ≡ true)
          numbers)
    → let after = populate no_refusals rep.node start last get_headers rep in
      (after.1 ≡ ok tt) × (missing_block_numbers start last rep.node after.0.rows ≡ [])
unfolding populate missing_block_numbers
populate_complete start last get_headers rep served =
    let numbers = missing_block_numbers start last rep.node rep.rows in
    elim (Bool-cases (is_empty numbers)) [
      | inl nothing ↦ rw (nothing) (refl, (is_empty_iff numbers).0 nothing)
      | inr some_number ↦
          let (done, later) = update_headers-stored (get_headers numbers) rep in
          let after = (update_headers no_refusals (get_headers numbers) rep).0 in
          rw (some_number) (
            done,
            keep-none (λ number. stored rep.node number after.rows) _
                (All-from_keep (λ number. stored rep.node number rep.rows) _
                  (λ number was. later number (rw (was) refl))
                  (All-imp _ (λ number. stored rep.node number after.rows ≡ true) numbers
                    (λ number found. later number (rw (found) (or_true _))) served)),
          )
    ]
