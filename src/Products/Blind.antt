-- ===== src/Products/Blind.antt =====
-- What a new product is answered with, and what is stored of it.
use core_status.Base.{◌≡◌, refl, ◌⊎◌, inl, inr, [], ◌∷◌, ◌++◌, arith}
use core_status.Data.Errors.{Error, err, Result-cases}
use core_status.Data.Json.{obj, end, field}
use core_status.Data.Entities.{Product}
use core_status.Effects.{World, Env}
use core_status.Effects.Laws.{IsTable}
use core_status.Products.{insert_product, save_product, add_products}

-- A new product is answered with an `id` that has no value, whether it is stored at the end of the table or the database
-- refuses it and nothing changes.
add_products_blind :
    (env : Env) (laws : IsTable env.product_table) (product : Product) (w : World)
    → let (answer, w') = add_products env product w in
      (answer ≡ obj (field "id" (obj end) end))
      × (((p : Product) × (w'.products ≡ w.products ++ p ∷ []))
          ⊎ ((e : Error) × (env.product_table.insert product w.products ≡ err e) × (w' ≡ w)))
unfolding add_products insert_product save_product
add_products_blind env laws product w = (
  refl,
  elim (Result-cases (env.product_table.insert product w.products)) [
    | inl ((p, rows), stored) ↦
        inl (p, ground (arith, laws.insert_adds product w.products rows p stored))
    | inr (e, refused) ↦ inr (e, refused, ground arith)
  ],
)
