-- ===== src/Storage/Packed.antt =====
-- decodePackedSlot of libraries/shared/storage/utils/decoder.go against a slot that is packed.
use vulcanize_db.Prelude.{
  ◌-◌, ◌≡◌, refl, false, List, [], ◌∷◌, ◌++◌, length, length-append, drop, take, ltb, String, map,
  arith,
}
use vulcanize_db.Go.{Bytes, ok}
use vulcanize_db.Storage.{
  ValueType, get_number_of_bytes, Printers, decode_individual_item, decode_packed_slot,
}

-- An item of a packed slot: its type, its bytes and how they print.
pub record Item (printers : Printers) : Type 0 where
  pub type : ValueType
  pub bytes : Bytes
  pub text : String
  pub sized : get_number_of_bytes type ≡ ok (length bytes)
  pub prints : decode_individual_item printers bytes type ≡ ok text

-- The first item is in the lowest bytes, which stand last.
abbrev pub packed : {printers : Printers} → Bytes → List (Item printers) → Bytes
packed padding [] = padding
packed padding (item ∷ items) = packed padding items ++ item.bytes

drop-append : (xs ys : Bytes) → drop (length xs) (xs ++ ys) ≡ ys
drop-append [] ys = refl
drop-append (x ∷ xs) ys = drop-append xs ys

take-append : (xs ys : Bytes) → take (length xs) (xs ++ ys) ≡ xs
take-append [] ys = refl
take-append (x ∷ xs) ys = rw (take-append xs ys) refl

-- A slot packed from items of the types named is decoded item by item, whatever stands above
-- them.
pub decode_packed_slot-packed :
    (printers : Printers) (padding : Bytes) (items : List (Item printers))
    → decode_packed_slot printers (packed padding items) (map (λ i. i.type) items)
      ≡ ok (map (λ i. i.text) items)
unfolding decode_packed_slot
decode_packed_slot-packed printers padding [] = refl
decode_packed_slot-packed printers padding (item ∷ items) =
    let above = packed padding items in
    let total = length-append above item.bytes in
    let fits : ltb (length (above ++ item.bytes)) (length item.bytes) ≡ false = ground arith in
    let start : length (above ++ item.bytes) - length item.bytes ≡ length above = omega arith in
    rw
      (
        item.sized,
        fits,
        start,
        drop-append above item.bytes,
        item.prints,
        take-append above item.bytes,
        decode_packed_slot-packed printers padding items,
      )
      refl
