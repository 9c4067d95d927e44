-- ===== src/Tests/Posts.antt =====
-- Posted work requests.
use urma_rs.Base.{arith, ◌≡◌, refl, true, false, List, [], ◌∷◌, map, some}
use urma_rs.Error.{check_status}
use urma_rs.Ffi.Requests.{walk}
use urma_rs.Ffi.Liburma.{Event}
use urma_rs.Ffi.World.{log}
use urma_rs.Urma.Seg.{LocalSge, to_ffi}
use urma_rs.Urma.Post.{Req, list_memory, rw_memory, post_rw}
use urma_rs.Urma.Post.Chain.{single, walk-list_memory}
use urma_rs.Urma.Post.Single.{gathered, post_rw-posts}
use urma_rs.Tests.Library.{working, opened, jetty, peer, window}

abbrev first : Req
first = record { remote_va = 1000; local = window 0; user_ctx = 1; signaled = false }

abbrev second : Req
second = record { remote_va = 2000; local = window 64; user_ctx = 2; signaled = true }

walk-list_memory_example :
    walk 3 (list_memory true peer (first ∷ second ∷ [])) (some 0)
    ≡ some (map (single true peer) (first ∷ second ∷ []))
walk-list_memory_example = walk-list_memory true peer first (second ∷ [])

abbrev windows : List LocalSge
windows = window 0 ∷ window 128 ∷ []

post_rw-posts_example :
    let m = rw_memory true peer 1000 128 (map to_ffi windows) 9 true in
    let st = working.urma_post_jetty_send_wr opened.trace 21 m in
    (post_rw working true "READ" jetty peer 1000 windows 9 true opened
      ≡ (check_status st "READ", log opened (Event.urma_post_jetty_send_wr 21 m st)))
    × (walk 2 m (some 0) ≡ some (gathered true peer 1000 windows 9 true ∷ []))
post_rw-posts_example =
    post_rw-posts working true "READ" jetty peer 1000 windows 9 true opened refl (omega arith)
