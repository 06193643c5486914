-- ===== src/Orders.antt =====
-- src/orders: the basket of a checkout, the warehouse that it reserves from, the shipping, and its saga.
pub mod Basket
pub mod Inventory
pub mod Checkout
pub mod Shipping
