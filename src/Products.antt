-- ===== src/Products.antt =====
-- Products (src/products/services/products.service.ts, src/products/repositories/product.repository.ts,
-- src/products/controllers/products.controller.ts).
pub mod Blind
use core_status.Base.{String, true, Option, none, some, List, ◌===◌}
use core_status.Data.Errors.{failure}
use core_status.Data.Json.{Json, obj, end, field}
use core_status.Data.Entities.{Product}
use core_status.Publishers.{publish_product_update}
use core_status.Effects.{World, Env, M, pure, throw, ◌>>=◌, ◌>>◌, query, commit, call}

-- `ProductRepository`
unfoldable pub save_product : Env → Product → M Product
save_product env product w =
    commit (env.product_table.insert product w.products) (λ rows. record w { products = rows }) w

unfoldable pub get_products : Env → M (List Product)
get_products env = query (λ w. env.product_table.find (λ p. true) w.products)

-- `findOneOrFail`
abbrev found_or_fail : Option Product → M Product
found_or_fail none = throw (failure "" "Could not find any entity of type \"ProductEntity\"")
found_or_fail (some product) = pure product

unfoldable pub get_product_by_id : Env → String → M Product
get_product_by_id env id = do
  found ← query (λ w. env.product_table.find_one (λ p. p.id === id) w.products)
  found_or_fail found

unfoldable pub delete_product : Env → String → M (List Product)
delete_product env id w =
    commit (env.product_table.remove (λ p. p.id === id) w.products)
      (λ rows. record w { products = rows }) w

-- `ProductsService.insertProduct`; its other functions are those of the repository.
unfoldable pub insert_product : Env → Product → M String
unfolding save_product
insert_product env product = do
  saved ← save_product env product
  publish_product_update env product
  pure product.id

-- `ProductsController.addProducts` answers with the promise of the insert, of which JSON keeps no field, and does not wait
-- for it; the other handlers are the service's functions.
unfoldable pub add_products : Env → Product → World → Json × World
unfolding insert_product
add_products env product w = (obj (field "id" (obj end) end), (insert_product env product w).1)
