-- ===== src/Vhf/Tests.antt =====
-- Reports of three contacts in thousandths, and the theorems at them.
use ego_touch_rev.Prelude.{
  ℕ, ◌+◌, ◌*◌, ◌/◌, ◌≡◌, refl, List, [], ◌∷◌, true, false, some, ltb, length, take, drop,
}
use ego_touch_rev.Prelude.Int.{pos}
use ego_touch_rev.Engine.{TouchContact, default_contact, touch_report_up}
use ego_touch_rev.Vhf.{
  Scale, clamp, encode_contact_state, reportable, to_vhf, write_contacts, build_touch_reports,
}
use ego_touch_rev.Vhf.Device.{no_file, opened, VhfOs, Reporter}
use ego_touch_rev.Vhf.Layout.{shown, layout, reports_follow_layout}

-- Thousandths.
abbrev thousandths : Scale ℕ
thousandths = record {
  number = λ n. n * 1000;
  div_f = λ a b. a * 1000 / b;
  mul_f = λ a b. a * b / 1000;
  lt_f = ltb;
  lround = λ a. pos ((a + 500) / 1000);
}

abbrev finger : ℕ → TouchContact ℕ
finger n = record (default_contact 0) { id = pos n; x = n * 6000; y = n * 4000 }

-- The second one has no number, and the third one is going up.
abbrev contacts : List (TouchContact ℕ)
contacts =
    finger 1 ∷ finger 0 ∷ record (finger 2) { report_event = touch_report_up } ∷ finger 3 ∷ []

-- Contact 1 stands at a tenth of both axes: 1600 of 16000, and 25600 - 2560.
first_slot :
    take 8 (build_touch_reports thousandths false contacts).0.bytes
    ≡ 0x01 ∷ 0x03 ∷ 1 ∷ 0x40 ∷ 0x06 ∷ 0x00 ∷ 0x5A ∷ 0x02 ∷ []
unfolding build_touch_reports write_contacts reportable encode_contact_state clamp to_vhf
first_slot = refl

reports_follow_layout_example :
    let ten = take 10 (shown contacts) in
    let (first, second) = build_touch_reports thousandths false contacts in
    (first.bytes ≡ layout thousandths false (take 5 ten) (length ten))
    × (second.bytes ≡ layout thousandths false (take 5 (drop 5 ten)) 0)
    × (first.valid ≡ ltb 0 (length ten))
    × (second.valid ≡ ltb 5 (length ten))
reports_follow_layout_example = reports_follow_layout thousandths false contacts

-- The world counts the writes, of which the first one fails.
abbrev driver : VhfOs ℕ
driver = record {
  list_interfaces = λ w. (some (no_file ∷ opened ∷ []), w);
  write_file = λ bytes w. (ltb 0 w, w + 1);
  close_handle = λ w. w;
}

abbrev reporter : Reporter ℕ
reporter = record {
  enabled = true;
  transpose = false;
  had_touch_last_frame = true;
  eraser_state = 0;
  handle_open = false;
  world = 0;
}
