-- ===== src/Js/Tests.antt =====
-- The theorem on exact keys, at a concrete object.
use restaurant_ordering_anal.Base.{js}
use restaurant_ordering_anal.Js.{Fields, null, field, end}

abbrev two_fields : Fields
two_fields = field (js "version") null (field (js "items") null end)
