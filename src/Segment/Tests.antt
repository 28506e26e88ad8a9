-- ===== src/Segment/Tests.antt =====
-- Concrete runs of `safe_segment`.
use immich_bridge.Prelude.{◌≤◌, ◌≡◌, refl, length, arith}
use immich_bridge.Segment.{
  chars, safe_segment, safe_chars, is_unsafe, replace_unsafe, collapse, lstrip_edges, strip_edges,
}
use immich_bridge.Segment.Laws.{IsSafe, safe_chars-IsSafe}

slash_is_replaced : safe_segment " a/b:  c. " "View" 140 ≡ "a-b- c"
unfolding safe_segment safe_chars is_unsafe replace_unsafe collapse lstrip_edges strip_edges
slash_is_replaced = refl

dots_are_no_name : safe_segment ".." "View" 140 ≡ "View"
unfolding safe_segment safe_chars is_unsafe replace_unsafe collapse lstrip_edges strip_edges
dots_are_no_name = refl

safe_chars-IsSafe_example :
    IsSafe (safe_chars (chars "a/b") (chars "View") 140)
    × (1 ≤ length (safe_chars (chars "a/b") (chars "View") 140))
unfolding is_unsafe
safe_chars-IsSafe_example = safe_chars-IsSafe (chars "a/b") (chars "View") 140 refl (omega arith)
