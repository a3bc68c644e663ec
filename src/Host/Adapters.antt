-- ===== src/Host/Adapters.antt =====
-- What the adapters of util/tuntap_adapter.hh and util/lossy_fd_adapter.hh are to a TCPMinnowSocket.
use cs144_minnow.Base.{ℕ, Bool, true, false, Option, none, ◌==◌, if◌then◌else◌}
use cs144_minnow.Base.Outcome.{Outcome, ok, ◌>>=◌}
use cs144_minnow.Wire.Segment.{TcpSegment}
use cs144_minnow.Wire.Adapter.{FdAdapterConfig, set_listening, should_drop}
use cs144_minnow.Host.Descriptor.{System}
use cs144_minnow.Host.Tun.{TunAdapter, TapAdapter}
use cs144_minnow.Host.Tun
use cs144_minnow.Host.TcpSocket.{Adapter}

-- A random engine, with its state.
pub record Engine (R : Type 0) : Type 0 where
  pub draw : R → ℕ × R

pub record LossyFdAdapter (R A : Type 0) : Type 0 where
  pub rand : R
  pub adapter : A

module _ {E : Type 0} (sys : System E) where
  -- FdAdapterBase::tick does nothing.
  unfoldable pub tun_adapter : Adapter TunAdapter E
  tun_adapter = record {
    fd = λ a. a.tun;
    read = λ a e. Tun.read sys a e;
    write = λ seg a e. Tun.write_segment sys seg a e;
    tick = λ ms a e. ok (a, e);
    config = λ a. a.base.config;
    configure = λ c a. record a { base = record a.base { config = c } };
    set_listening = λ l a. record a { base = set_listening l a.base };
  }

  unfoldable pub tap_adapter : Adapter TapAdapter E
  tap_adapter = record {
    fd = λ a. a.tap;
    read = λ a e. Tun.read_frame sys a e;
    write = λ seg a e. Tun.send_segment sys seg a e;
    tick = λ ms a e. Tun.tick sys ms a e;
    config = λ a. a.base.config;
    configure = λ c a. record a { base = record a.base { config = c } };
    set_listening = λ l a. record a { base = set_listening l a.base };
  }

abbrev is_lossless : Bool → FdAdapterConfig → Bool
is_lossless uplink cfg = (if uplink then cfg.loss_rate_up else cfg.loss_rate_dn) == 0

module _ {R A E : Type 0} (engine : Engine R) (ad : Adapter A E) where
  -- A loss rate of 0 draws no number.
  unfoldable pub drops : Bool → LossyFdAdapter R A → Bool × LossyFdAdapter R A
  drops uplink a =
      let cfg = ad.config a.adapter in
      let (random, rand) = engine.draw a.rand in
      if is_lossless uplink cfg
      then (false, a)
      else (should_drop random uplink cfg, record a { rand = rand })

  unfoldable pub read :
      LossyFdAdapter R A → E → Outcome (Option TcpSegment × LossyFdAdapter R A × E)
  read a e = ad.read a.adapter e >>= λ r.
      let (dropped, a1) = drops false (record a { adapter = r.1 }) in
      ok (if dropped then none else r.0, a1, r.2)

  unfoldable pub write :
      TcpSegment → LossyFdAdapter R A → E → Outcome (TcpSegment × LossyFdAdapter R A × E)
  write seg a e =
      let (dropped, a1) = drops true a in
      let written = ad.write seg a1.adapter e >>= λ r. ok (r.0, record a1 { adapter = r.1 }, r.2) in
      if dropped then ok (seg, a1, e) else written

  unfoldable pub lossy : Adapter (LossyFdAdapter R A) E
  lossy = record {
    fd = λ a. ad.fd a.adapter;
    read = λ a e. read a e;
    write = λ seg a e. write seg a e;
    tick = λ ms a e. ad.tick ms a.adapter e >>= λ r. ok (record a { adapter = r.0 }, r.1);
    config = λ a. ad.config a.adapter;
    configure = λ c a. record a { adapter = ad.configure c a.adapter };
    set_listening = λ l a. record a { adapter = ad.set_listening l a.adapter };
  }
