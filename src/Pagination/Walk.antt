-- ===== src/Pagination/Walk.antt =====
-- About a client that follows the cursors of src/app/core/pagination.py.
use smart_procurement_backen.Prelude.{
  ℕ, zero, suc, ◌+◌, ◌≤◌, ◌≡◌, refl, sym, ap, ◌∙◌, String, false, Option, none, some, List, [],
  ◌++◌, ltb, Bool-cases, inl, inr, arith, length, take, drop, take-append-drop, drop-drop, drop-all,
}
use smart_procurement_backen.Prelude.Int.{ℤ, pos, negsuc}
use smart_procurement_backen.Pagination.{is_empty, clamp_limit, decode_cursor, paginate}

-- A page has room for a row, and for at most 200.
pub clamp_limit-bounds : (limit : Option ℤ) → (1 ≤ clamp_limit limit) × (clamp_limit limit ≤ 200)
clamp_limit-bounds none = (omega arith, omega arith)
clamp_limit-bounds (some (negsuc n)) = (omega arith, omega arith)
clamp_limit-bounds (some (pos n)) = elim (Bool-cases (ltb n 1)) [
  | inl e ↦ rw e (omega arith, omega arith)
  | inr e ↦ rw e (ground (arith, e), ground (arith, e))
]

module _ (str : ℕ → String) (int : String → Option ℤ) where
  -- A text of a number is not empty and reads back.
  abbrev pub Reads : Type 0
  Reads = (n : ℕ) → (is_empty (str n) ≡ false) × (int (str n) ≡ some (pos n))

  -- The rows that a client collects in so many requests.
  abbrev pub walk {ℓ} : {A : Type ℓ} → List A → Option ℤ → ℕ → Option String → List A
  walk rows limit zero cursor = []
  walk rows limit (suc n) cursor =
      let page = paginate str int rows limit cursor in
      page.0 ++ elim page.1 [ none ↦ [] | some next ↦ walk rows limit n (some next) ]

  module _ {ℓ} {A : Type ℓ} (rows : List A) (limit : Option ℤ) (reads : Reads) where
    decode-str : (n : ℕ) → decode_cursor str int (some (str n)) ≡ n
    decode-str n = let (full, back) = reads n in rw (full, back) refl

    -- A page, and what the client collects after it.
    page-drop :
        (k : ℕ) (later : List A)
        → later ≡ drop (k + clamp_limit limit) rows
        → take (clamp_limit limit) (drop k rows) ++ later ≡ drop k rows
    page-drop k later h =
        ap (λ l. take (clamp_limit limit) (drop k rows) ++ l)
          (h ∙ sym (drop-drop (clamp_limit limit) k rows))
        ∙ take-append-drop (clamp_limit limit) (drop k rows)

    last-drop :
        (k : ℕ)
        → ltb (k + clamp_limit limit) (length rows) ≡ false
        → [] ≡ drop (k + clamp_limit limit) rows
    last-drop k e = sym (drop-all (k + clamp_limit limit) rows (ground (arith, e)))

    -- From an offset on, the client collects what is left.
    walk-drop :
        (n k : ℕ) (cursor : Option String)
        → decode_cursor str int cursor ≡ k
        → length rows ≤ k + suc n
        → walk rows limit (suc n) cursor ≡ drop k rows
    unfolding paginate
    walk-drop zero k cursor at enough =
        elim (Bool-cases (ltb (k + clamp_limit limit) (length rows))) [
          | inr e ↦ rw (at, e) (page-drop k [] (last-drop k e))
          | inl e ↦ absurd (ground (arith, e, enough, (clamp_limit-bounds limit).0))
        ]
    walk-drop (suc n) k cursor at enough =
        elim (Bool-cases (ltb (k + clamp_limit limit) (length rows))) [
          | inr e ↦ rw (at, e) (page-drop k [] (last-drop k e))
          | inl e ↦
              rw (at, e)
                (page-drop k (walk rows limit (suc n) (some (str (k + clamp_limit limit)))) (
                  walk-drop n (k + clamp_limit limit) (some (str (k + clamp_limit limit)))
                    (decode-str (k + clamp_limit limit))
                    (omega (arith, enough, (clamp_limit-bounds limit).0))))
        ]

    -- Where the text of a number is not empty and reads back as the number: a client that asks for the
    -- first page and follows the cursors, whatever its limit, has every row once and in order after one
    -- request more than there are rows.
    pub walk-all : walk rows limit (suc (length rows)) none ≡ rows
    walk-all = walk-drop (length rows) 0 none refl (omega arith)
