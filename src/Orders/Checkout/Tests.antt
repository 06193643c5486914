-- ===== src/Orders/Checkout/Tests.antt =====
-- The checkout of twenty desks, from a shelf of twenty-five.
use boilerplate_nestjs_api.Prelude.{
  ◌≡◌, refl, true, [], ◌∷◌, none, Utf16, utf16, insert, same_text, every, lookup, arith,
}
use boilerplate_nestjs_api.Payments.Money.{Money, normalise_money, is_currency}
use boilerplate_nestjs_api.Payments.Mock.{no_payments}
use boilerplate_nestjs_api.Orders.Checkout.{
  Order, pending, World, CheckoutSagaState, charging, confirming, perform,
}
use boilerplate_nestjs_api.Orders.Checkout.Again.{perform_again}
use boilerplate_nestjs_api.Orders.Basket.{merge_lines}
use boilerplate_nestjs_api.Orders.Inventory.{first_short}
use boilerplate_nestjs_api.Orders.Shipping.{includes, serviced_countries}
use boilerplate_nestjs_api.Orders.Checkout.Completes.{Completed, confirm-Completed}
use boilerplate_nestjs_api.Orders.Checkout.Reached.{Keys, at_parcel, run_through, reached, undoing}
use boilerplate_nestjs_api.Orders.Checkout.Undone.{Unmade, undo-Unmade}
use boilerplate_nestjs_api.Orders.Checkout.Undoing.{undo}

abbrev waiting_order : Order
waiting_order = record { status = pending; failure_reason = none }

abbrev shop : World
shop = record {
  orders = ("o1", waiting_order) ∷ [];
  inventory = record { stock = ("SKU-DESK-01", 25) ∷ []; reservations = [] };
  payments = no_payments;
  shipping = record { shipments = []; sequence = 0 };
  outbox = [];
}

abbrev to_antarctica : CheckoutSagaState
to_antarctica = record {
  order_id = "o1";
  user_id = "u1";
  currency = utf16 "EUR";
  total_minor = 900000;
  shipping_country = utf16 "AQ";
  lines = record { sku = "SKU-DESK-01"; quantity = 20; rest = tt } ∷ [];
  reservation_id = none;
  payment_id = none;
  shipment_id = none;
}

abbrev keys : Keys
keys = record { for_order = "s1:0"; for_stock = "s1:1"; for_payment = "s1:2"; for_parcel = "s1:3" }

abbrev price : Money
price = record { amount_minor = 900000; currency = utf16 "EUR" }

abbrev as_is : Utf16 → Utf16
as_is text = text

perform_again_example :
    perform as_is charging "s1:2" to_antarctica (perform as_is charging "s1:2" to_antarctica shop).1
    ≡ perform as_is charging "s1:2" to_antarctica shop
perform_again_example = perform_again as_is charging "s1:2" to_antarctica shop

undo-Unmade_example : Unmade (utf16 "No carrier") keys price to_antarctica shop (
    undo as_is
      (undoing (utf16 "No carrier") keys at_parcel)
      (reached as_is at_parcel (run_through true) keys (to_antarctica, shop)).0
      (reached as_is at_parcel (run_through true) keys (to_antarctica, shop)).1)
unfolding normalise_money is_currency every lookup utf16
undo-Unmade_example =
    undo-Unmade as_is at_parcel (run_through true) (utf16 "No carrier") keys price to_antarctica
      shop waiting_order refl (ground arith) refl refl refl refl refl

abbrev to_germany : CheckoutSagaState
to_germany = record to_antarctica { shipping_country = utf16 "DE" }

confirm-Completed_example :
    let (reached_state, reached_world) =
      reached as_is at_parcel (run_through true) keys (to_germany, shop) in
    Completed as_is keys price to_germany shop
      (perform as_is confirming "s1:4" reached_state reached_world)
unfolding normalise_money is_currency every lookup utf16 includes same_text first_short merge_lines
    insert serviced_countries
confirm-Completed_example =
    confirm-Completed as_is keys "s1:4" price to_germany shop waiting_order refl refl refl refl refl
      refl refl refl refl
