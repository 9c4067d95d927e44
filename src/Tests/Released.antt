-- ===== src/Tests/Released.antt =====
-- What constructors leave held.
use urma_rs.Base.{arith, ◌≡◌, ◌∷◌}
use urma_rs.Error.{err, invalid, priority_out_of_range}
use urma_rs.Urma.Jetty
use urma_rs.Urma.Jetty.{JettyOpts, default_opts, export_rjetty}
use urma_rs.Urma.Release.{held, jfr}
use urma_rs.Urma.Release.Create.{Gains, one, jetty_held, jetty-new-Gains, jetty-new-leak}
use urma_rs.Tests.Library.{working, opened, ctx}

jetty-new-Gains_example :
    let r = Jetty.new working ctx 0 default_opts opened in
    Gains jetty_held (held opened.trace) r.0 r.1
jetty-new-Gains_example = jetty-new-Gains working ctx 0 default_opts opened (omega arith)

abbrev urgent : JettyOpts
urgent = record default_opts { priority = 16 }

jetty-new-leak_example :
    let r = Jetty.new working ctx 0 urgent opened in
    (r.0 ≡ err (invalid (priority_out_of_range 16 15)))
    × (held r.1.trace ≡ one jfr 100 ∷ held opened.trace)
jetty-new-leak_example = jetty-new-leak working ctx 0 urgent opened (omega arith) (omega arith)
