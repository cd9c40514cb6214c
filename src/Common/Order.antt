-- ===== src/Common/Order.antt =====
-- A comparison as a Boolean, and the stable sort `slice::sort_by` over it: of two elements that
-- compare equal the one that stood first stays first.
mod Sorting
unfoldable pub use Sorting.*
