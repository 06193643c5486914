-- ===== src/Orders/Shipping.antt =====
-- src/orders/services/in-memory-shipping.service.ts: parcels by the id of the shipment.
use boilerplate_nestjs_api.Prelude.{
  ℕ, ◌+◌, ◌-◌, ◌%◌, Bool, false, ◌||◌, List, [], ◌∷◌, ◌++◌, Option, none, some, String, length,
  replicate, get_elem?, Dict, lookup, insert, Utf16, utf16, decimal, same_text, if◌then◌else◌,
}

unfoldable pub serviced_countries : List Utf16
serviced_countries =
    utf16 "GB" ∷ utf16 "IE" ∷ utf16 "FR" ∷ utf16 "DE" ∷ utf16 "US" ∷ utf16 "CA" ∷ []

unfoldable pub carriers : List Utf16
carriers = utf16 "parcelforce" ∷ utf16 "dhl" ∷ utf16 "ups" ∷ []

pub record Shipment : Type 0 where
  pub id : String
  pub order_id : String
  pub carrier : Utf16
  pub tracking_code : Utf16
  pub destination : Utf16

pub record ShippingService : Type 0 where
  pub shipments : Dict Shipment
  pub sequence : ℕ

pub data Shipped : Type 0 where
  shipped : Shipment → Shipped
  unserviced : Utf16 → Shipped

unfoldable pub includes : Utf16 → List Utf16 → Bool
includes text [] = false
includes text (other ∷ texts) = same_text other text || includes text texts

abbrev pub or_parcelforce : Option Utf16 → Utf16
or_parcelforce none = utf16 "parcelforce"
or_parcelforce (some carrier) = carrier

-- With the number that is counted for it.
unfoldable pub booked : String → String → Utf16 → ℕ → Shipment
unfolding carriers
booked order_id shipment_id destination sequence = record {
  id = shipment_id;
  order_id = order_id;
  carrier = or_parcelforce (get_elem? carriers (sequence % length carriers));
  tracking_code = utf16 "TRK" ++ replicate (8 - length (decimal sequence)) b'0' ++ decimal sequence;
  destination = destination;
}

unfoldable pub create_shipment :
    (Utf16 → Utf16) → String → Utf16 → String → ShippingService → Shipped × ShippingService
unfolding booked includes serviced_countries
create_shipment upper_case order_id destination shipment_id service =
    elim (lookup shipment_id service.shipments) [
      | some existing ↦ (shipped existing, service)
      | none ↦
          if includes (upper_case destination) serviced_countries
          then (
            shipped (booked order_id shipment_id (upper_case destination) (service.sequence + 1)),
            record {
              shipments =
                  insert shipment_id
                    (booked order_id shipment_id (upper_case destination) (service.sequence + 1))
                    service.shipments;
              sequence = service.sequence + 1;
            },
          )
          else (unserviced (upper_case destination), service)
    ]
