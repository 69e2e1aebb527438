-- ===== src/Transport/Kiss/Tests.antt =====
-- A UI frame from K6FB-2 to BEACON through two digipeaters.
use bbs.Prelude.{◌≡◌, refl, [], ◌∷◌, some, ◌>>=◌, arith}
use bbs.Text.{codes}
use bbs.Ax25.NetromFrame.Wire.{show_call}
use bbs.Ax25.Kiss.{decode_ax25}
use bbs.Transport.Kiss.{build_ax25_ui_frame}
use bbs.Transport.Kiss.Fields.{IsStation}
use bbs.Transport.Kiss.Laws.{ui_frame, decode-build_ax25_ui_frame}

source-IsStation : IsStation (codes "K6FB-2")
unfolding show_call
source-IsStation = record {
  call = codes "K6FB";
  ssid = 2;
  chars = ground arith;
  some_chars = omega arith;
  short = omega arith;
  ssid_range = omega arith;
  shown = refl;
}

beacon-IsStation : IsStation (codes "BEACON")
unfolding show_call
beacon-IsStation = record {
  call = codes "BEACON";
  ssid = 0;
  chars = ground arith;
  some_chars = omega arith;
  short = omega arith;
  ssid_range = omega arith;
  shown = refl;
}

decode-build_ax25_ui_frame_example :
    build_ax25_ui_frame
        (codes "K6FB-2")
        (codes "BEACON")
        (72 ∷ 105 ∷ [])
        (codes "BEACON" ∷ codes "K6FB-2" ∷ [])
      >>= (λ ax25. decode_ax25 ax25 3)
    ≡ some (
        some (
          ui_frame 3
            (codes "K6FB-2")
            (codes "BEACON")
            (72 ∷ 105 ∷ [])
            (codes "BEACON" ∷ codes "K6FB-2" ∷ [])))
decode-build_ax25_ui_frame_example =
    decode-build_ax25_ui_frame (codes "K6FB-2") (codes "BEACON") (72 ∷ 105 ∷ [])
      (codes "BEACON" ∷ codes "K6FB-2" ∷ []) 3 source-IsStation beacon-IsStation
      (beacon-IsStation, (source-IsStation, tt))
