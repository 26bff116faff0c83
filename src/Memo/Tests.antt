-- ===== src/Memo/Tests.antt =====
-- A capture with a dummy between its children.
use libpeg.Prelude.{ℕ, ◌≡◌, length, get_elem?}
use libpeg.Prelude.Int.{pos}
use libpeg.Memo.Capture.{Capture, node, dummy, end, capture, num_children, each_child, child}
use libpeg.Memo.Children.{children_agree}

abbrev family : Capture
family = node (pos 1) (
    capture (node (pos 2) end) (
      capture (dummy (capture (node (pos 3) end) (capture (node (pos 4) end) end)))
        (capture (node (pos 5) end) end)))

children_agree_example :
    (num_children family ≡ length (each_child family))
    × ((n : ℕ) → child family n ≡ get_elem? (each_child family) n)
children_agree_example = children_agree family
