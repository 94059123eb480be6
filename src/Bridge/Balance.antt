-- ===== src/Bridge/Balance.antt =====
-- What the creation of a bridge leaves open, and which bridges there can be.
use go_mrcp.Prelude.{
  ℕ, ◌+◌, ◌-◌, ◌≡◌, ◌⊎◌, refl, sym, ◌∙◌, inl, inr, arith, true, Option, none, some,
}
use mathlib.Core.Path.{subst}
use go_mrcp.Prelude.Text.{Text}
use go_mrcp.Codec.Descriptor.{
  CodecDescriptor, descriptors_match, lpcm_descriptor_match, linear_frame_size_calculate,
}
use go_mrcp.Codec.Manager.{CodecManager}
use go_mrcp.Bridge.Stream.{
  Media, Run, ok, err, panic, stuck, ◌>>=◌, Done, AudioStream, audio_stream_rx_open,
  audio_stream_rx_close, audio_stream_tx_open,
}
use go_mrcp.Bridge.Process.{Bridge, HasMethods, bridge_process, null_bridge_process, bridge_destroy}
use go_mrcp.Bridge.Create.{bridge_create, open_streams, after_tx, close_and_fail}
use go_mrcp.Bridge.Laws.{
  panics, fails, linear, null, bridge_create-Plan, linear_bridge, null_bridge, set_rx,
}

-- What a result says of the state that it leaves, for a value and for an error.
abbrev pub Leaves : {S A : Type 0} → (S → Type 0) → (S → Type 0) → Run S A → Type 0
Leaves p q (ok s a) = p s
Leaves p q (err s) = q s
Leaves p q panic = Unit {0}
Leaves p q stuck = Unit {0}

module _ {World : Type 0} where
  abbrev pub At : (World → ℕ) → (World → ℕ) → ℕ → ℕ → Media World → Type 0
  At rx tx a b m = (rx m.world ≡ a) × (tx m.world ≡ b)

  -- The contract of the streams' methods: `rx` and `tx` count the open receivers and transmitters. An
  -- open that succeeds counts one more of its kind, one that fails none; a close counts one less,
  -- whether it reports an error or not.
  pub record Counts (source sink : AudioStream World) (rx tx : World → ℕ) : Type 0 where
    pub rx_open :
        (m : Media World)
        → Leaves
            (At rx tx (rx m.world + 1) (tx m.world))
            (At rx tx (rx m.world) (tx m.world))
            (audio_stream_rx_open (some source) none m)
    pub rx_close :
        (m : Media World)
        → Leaves
            (At rx tx (rx m.world - 1) (tx m.world))
            (At rx tx (rx m.world - 1) (tx m.world))
            (audio_stream_rx_close (some source) m)
    pub tx_open :
        (m : Media World)
        → Leaves
            (At rx tx (rx m.world) (tx m.world + 1))
            (At rx tx (rx m.world) (tx m.world))
            (audio_stream_tx_open (some sink) none m)

  Leaves-close_and_fail :
      (r : Run (Media World) Done) (p q : Media World → Type 0)
      → Leaves q q r
      → Leaves p q (close_and_fail r)
  Leaves-close_and_fail (ok m d) p q h = h
  Leaves-close_and_fail (err m) p q h = h
  Leaves-close_and_fail panic p q h = h
  Leaves-close_and_fail stuck p q h = h

  module _ (source sink : AudioStream World) (rx tx : World → ℕ)
      (counts : Counts source sink rx tx) where
    after_tx-Leaves :
        (bridge : Bridge World) (m : Media World) (a b : ℕ) (r : Run (Media World) Done)
        → Leaves (At rx tx (a + 1) (b + 1)) (At rx tx (a + 1) b) r
        → Leaves (At rx tx (a + 1) (b + 1)) (At rx tx a b) (after_tx (some source) bridge r)
    after_tx-Leaves bridge m a b (ok m' d) h = h
    after_tx-Leaves bridge m a b panic h = h
    after_tx-Leaves bridge m a b stuck h = h
    after_tx-Leaves bridge m a b (err m') h =
        let e : rx m'.world - 1 ≡ a = omega (arith, h.0) in
        Leaves-close_and_fail (audio_stream_rx_close (some source) m') (At rx tx (a + 1) (b + 1))
          (At rx tx a b) (rw e at (rw h.1 at (counts.rx_close m')))

    opened-Leaves :
        (bridge : Bridge World) (a b : ℕ) (r : Run (Media World) Done)
        → Leaves (At rx tx (a + 1) b) (At rx tx a b) r
        → Leaves
            (At rx tx (a + 1) (b + 1))
            (At rx tx a b)
            (r >>= λ m' _. after_tx (some source) bridge (audio_stream_tx_open (some sink) none m'))
    opened-Leaves bridge a b (ok m d) h =
        after_tx-Leaves bridge m a b (audio_stream_tx_open (some sink) none m)
          (rw h.1 at (rw h.0 at (counts.tx_open m)))
    opened-Leaves bridge a b (err m) h = h
    opened-Leaves bridge a b panic h = h
    opened-Leaves bridge a b stuck h = h

    open_streams-Leaves :
        (bridge : Bridge World) (m : Media World)
        → Leaves
            (At rx tx (rx m.world + 1) (tx m.world + 1))
            (At rx tx (rx m.world) (tx m.world))
            (open_streams source sink bridge m)
    unfolding open_streams
    open_streams-Leaves bridge m =
        opened-Leaves bridge (rx m.world) (tx m.world) (audio_stream_rx_open (some source) none m)
          (counts.rx_open m)

    -- A bridge that was created has one more receiver and one more transmitter open; a creation that
    -- ends with an error has as many open as before, so the receiver is closed again when the
    -- transmitter does not open.
    pub bridge_create-Leaves :
        (manager : Option CodecManager) (name : Text) (m : Media World)
        → Leaves
            (At rx tx (rx m.world + 1) (tx m.world + 1))
            (At rx tx (rx m.world) (tx m.world))
            (bridge_create (some source) (some sink) manager name m)
    bridge_create-Leaves manager name m = elim (bridge_create-Plan source sink name manager m) [
      | panics e ↦ rw e tt
      | fails e ↦ rw e (refl, refl)
      | linear r t p q l s e ↦ rw e (open_streams-Leaves (linear_bridge source sink name r) m)
      | null r t changed cm codec p q h c g e ↦ rw e (
          open_streams-Leaves (null_bridge source sink name changed codec)
            (set_rx source sink name m changed))
    ]

  -- The bridge that a run returns is the one that was given.
  abbrev Returns : Bridge World → Run (Media World) (Bridge World) → Type 0
  Returns bridge (ok m b) = b ≡ bridge
  Returns bridge (err m) = Unit {0}
  Returns bridge panic = Unit {0}
  Returns bridge stuck = Unit {0}

  closed-Returns :
      (bridge : Bridge World) (r : Run (Media World) Done) → Returns bridge (close_and_fail r)
  closed-Returns bridge (ok m d) = tt
  closed-Returns bridge (err m) = tt
  closed-Returns bridge panic = tt
  closed-Returns bridge stuck = tt

  after_tx-Returns :
      (source : AudioStream World) (bridge : Bridge World) (r : Run (Media World) Done)
      → Returns bridge (after_tx (some source) bridge r)
  after_tx-Returns source bridge (ok m d) = refl
  after_tx-Returns source bridge (err m) =
      closed-Returns bridge (audio_stream_rx_close (some source) m)
  after_tx-Returns source bridge panic = tt
  after_tx-Returns source bridge stuck = tt

  opened-Returns :
      (source sink : AudioStream World) (bridge : Bridge World) (r : Run (Media World) Done)
      → Returns bridge
          (r >>= λ m' _. after_tx (some source) bridge (audio_stream_tx_open (some sink) none m'))
  opened-Returns source sink bridge (ok m d) =
      after_tx-Returns source bridge (audio_stream_tx_open (some sink) none m)
  opened-Returns source sink bridge (err m) = tt
  opened-Returns source sink bridge panic = tt
  opened-Returns source sink bridge stuck = tt

  open_streams-Returns :
      (source sink : AudioStream World) (bridge : Bridge World) (m m' : Media World)
      (b : Bridge World)
      → open_streams source sink bridge m ≡ ok m' b
      → b ≡ bridge
  unfolding open_streams
  open_streams-Returns source sink bridge m m' b e =
      subst (Returns bridge) e
        (opened-Returns source sink bridge (audio_stream_rx_open (some source) none m))

  -- A bridge that was created is a null bridge of two streams whose codecs match, or a linear bridge,
  -- with a frame of the source's linear size, of two streams with one sampling rate, the source's codec
  -- being LPCM. It joins the two streams it was asked for.
  pub bridge_create_kind :
      (source sink : AudioStream World) (manager : Option CodecManager) (name : Text)
      (m m' : Media World) (bridge : Bridge World)
      → bridge_create (some source) (some sink) manager name m ≡ ok m' bridge
      → (bridge.source ≡ some source)
        × (bridge.sink ≡ some sink)
        × ((rx : CodecDescriptor) × (tx : CodecDescriptor) × (m.rx_descriptor source.number
              ≡ some rx)
            × (m.tx_descriptor sink.number ≡ some tx)
            × (((descriptors_match rx tx ≡ true) × (bridge.base.process ≡ some null_bridge_process))
                ⊎ ((lpcm_descriptor_match rx ≡ true)
                    × (rx.sampling_rate ≡ tx.sampling_rate)
                    × (bridge.base.process ≡ some bridge_process)
                    × (bridge.frame.size
                        ≡ linear_frame_size_calculate rx.sampling_rate rx.channel_count))))
  bridge_create_kind source sink manager name m m' bridge h =
      elim (bridge_create-Plan source sink name manager m) [
        | panics e ↦ absurd (cc)
        | fails e ↦ absurd (cc)
        | linear r t p q l s e ↦
            let b : bridge ≡ linear_bridge source sink name r =
              open_streams-Returns source sink (linear_bridge source sink name r) m m' bridge
                (sym e ∙ h) in
            rw b (refl, refl, (r, t, p, q, inr (l, s, refl, refl)))
        | null r t changed cm codec p q y c g e ↦
            let b : bridge ≡ null_bridge source sink name changed codec =
              open_streams-Returns source sink (null_bridge source sink name changed codec)
                (set_rx source sink name m changed) m' bridge (sym e ∙ h) in
            rw b (refl, refl, (r, t, p, q, inl (y, refl)))
      ]

  -- Both methods of a bridge that was created are set.
  pub bridge_create-HasMethods :
      (source sink : Option (AudioStream World)) (manager : Option CodecManager) (name : Text)
      (m m' : Media World) (bridge : Bridge World)
      → bridge_create source sink manager name m ≡ ok m' bridge
      → HasMethods bridge.base
  unfolding bridge_create
  bridge_create-HasMethods none sink manager name m m' bridge h = absurd (cc)
  bridge_create-HasMethods (some source) none manager name m m' bridge h = absurd (cc)
  bridge_create-HasMethods (some source) (some sink) manager name m m' bridge h =
      elim (bridge_create-Plan source sink name manager m) [
        | panics e ↦ absurd (cc)
        | fails e ↦ absurd (cc)
        | linear r t p q l s e ↦
            let b : bridge ≡ linear_bridge source sink name r =
              open_streams-Returns source sink (linear_bridge source sink name r) m m' bridge
                (sym e ∙ h) in
            rw b (record {
              process_set = (bridge_process, refl);
              destroy_set = (bridge_destroy, refl);
            })
        | null r t changed cm codec p q y c g e ↦
            let b : bridge ≡ null_bridge source sink name changed codec =
              open_streams-Returns source sink (null_bridge source sink name changed codec)
                (set_rx source sink name m changed) m' bridge (sym e ∙ h) in
            rw b (record {
              process_set = (null_bridge_process, refl);
              destroy_set = (bridge_destroy, refl);
            })
      ]
