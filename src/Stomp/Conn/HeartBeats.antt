-- ===== src/Stomp/Conn/HeartBeats.antt =====
-- The bounds of the time-outs that a client and the server agree on.
use transport_go.Prelude.{
  ℕ, ◌*◌, ◌/◌, ◌≤◌, ◌≡◌, ◌⊎◌, inl, inr, Bool, List, some, arith, ltb, if◌then◌else◌, String, ap,
  subst, Option-cases, sym, ◌∙◌,
}
use transport_go.Stomp.Config.{StompConfig}
use transport_go.Stomp.Frame.{FrameLib, Frame, HeaderName}
use transport_go.Stomp.Conn.Loop.{Keeps, run-keeps}
use transport_go.Stomp.Conn.{
  StompConn, millisecond, max_heart_beat_duration, minimum_heart_beat, apply_minimum,
  get_heart_beat, close, handle_connect, accept_connect,
}
use transport_go.Stomp.Conn.Handlers.{
  handle_disconnect, handle_send, handle_subscribe, handle_unsubscribe, populate_message_id_header,
}
use transport_go.Stomp.Conn.Running.{Input, run}

-- The configured heart-beat in milliseconds, at most 999999999.
abbrev pub least_ms : StompConfig → ℕ
least_ms cfg = if ltb 999999999 cfg.heartbeat then 999999999 else cfg.heartbeat

-- No time-out, or one between `low` and `high`.
abbrev pub IsBetween : ℕ → ℕ → ℕ → Type 0
IsBetween low high t = (t ≡ 0) ⊎ ((low ≤ t) × (t ≤ high))

pub record IsBounded (cfg : StompConfig) (conn : StompConn) : Type 0 where
  pub write : IsBetween (least_ms cfg * millisecond) max_heart_beat_duration conn.write_timeout
  pub read : IsBetween (least_ms cfg) 999999999 conn.read_timeout_ms

minimum_heart_beat-least_ms :
    (cfg : StompConfig)
    → cfg.heartbeat ≤ 9223372036854
    → minimum_heart_beat cfg ≡ least_ms cfg * millisecond
unfolding minimum_heart_beat
minimum_heart_beat-least_ms cfg l = ground arith

apply_minimum-IsBetween :
    (low d : ℕ)
    → low ≤ max_heart_beat_duration
    → d ≤ max_heart_beat_duration
    → IsBetween low max_heart_beat_duration (apply_minimum low d)
unfolding apply_minimum
apply_minimum-IsBetween low d l m = ground arith

IsBetween_in_ms :
    (low t : ℕ)
    → IsBetween (low * millisecond) max_heart_beat_duration t
    → IsBetween low 999999999 (t / millisecond)
IsBetween_in_ms low t (inl z) = inl (ground (arith, z))
IsBetween_in_ms low t (inr (l, h)) = inr (omega arith, omega arith)

IsBounded-same :
    (cfg : StompConfig) (a b : StompConn)
    → b.write_timeout ≡ a.write_timeout
    → b.read_timeout_ms ≡ a.read_timeout_ms
    → IsBounded cfg a
    → IsBounded cfg b
IsBounded-same cfg a b w r v = record {
  write = subst (IsBetween (least_ms cfg * millisecond) max_heart_beat_duration) (sym w) v.write;
  read = subst (IsBetween (least_ms cfg) 999999999) (sym r) v.read;
}

-- What `ParseHeartBeat` documents: no part is above the maximum.
abbrev pub IsParser : FrameLib → Type 0
IsParser L =
    (s : String) (d : ℕ × ℕ)
    → L.parse_heart_beat s ≡ some d
    → (d.0 ≤ max_heart_beat_duration) × (d.1 ≤ max_heart_beat_duration)

module _ (L : FrameLib) (cfg : StompConfig) (parses : IsParser L)
    (l : cfg.heartbeat ≤ 9223372036854) where
  get_heart_beat_small :
      (f : Frame L.Header) (d : ℕ × ℕ)
      → get_heart_beat L f ≡ some d
      → (d.0 ≤ max_heart_beat_duration) × (d.1 ≤ max_heart_beat_duration)
  unfolding get_heart_beat
  get_heart_beat_small f d e = elim (Option-cases (L.contains f.header HeaderName.heart_beat)) [
    | inl n ↦ ground (arith, n, e)
    | inr (s, y) ↦ parses s d (ground (arith, y, e))
  ]

  -- The time-outs of an accepted CONNECT.
  beats-IsBounded :
      (d : ℕ × ℕ) (c : StompConn)
      → d.0 ≤ max_heart_beat_duration
      → d.1 ≤ max_heart_beat_duration
      → c.write_timeout ≡ apply_minimum (minimum_heart_beat cfg) d.1
      → c.read_timeout_ms ≡ apply_minimum (minimum_heart_beat cfg) d.0 / millisecond
      → IsBounded cfg c
  beats-IsBounded d c x y w r =
      let low = least_ms cfg * millisecond in
      let is_low = minimum_heart_beat-least_ms cfg l in
      let small : low ≤ max_heart_beat_duration = ground arith in
      record {
        write =
            subst (IsBetween low max_heart_beat_duration)
              (ap (λ m. apply_minimum m d.1) (sym is_low) ∙ sym w)
              (apply_minimum-IsBetween low d.1 small y);
        read =
            subst (IsBetween (least_ms cfg) 999999999)
              (ap (λ m. apply_minimum m d.0 / millisecond) (sym is_low) ∙ sym r)
              (IsBetween_in_ms (least_ms cfg) (apply_minimum low d.0)
                (apply_minimum-IsBetween low d.0 small x));
      }

  -- CONNECT leaves the time-outs, or sets both.
  handle_connect-beats :
      (w : Bool) (f : Frame L.Header) (c : StompConn) (d : ℕ × ℕ)
      → get_heart_beat L f ≡ some d
      → let b = (handle_connect L cfg w f c).0 in
        ((b.write_timeout ≡ c.write_timeout) × (b.read_timeout_ms ≡ c.read_timeout_ms))
        ⊎ ((b.write_timeout ≡ apply_minimum (minimum_heart_beat cfg) d.1)
            × (b.read_timeout_ms ≡ apply_minimum (minimum_heart_beat cfg) d.0 / millisecond))
  unfolding handle_connect accept_connect
  handle_connect-beats w f c d y = ground (arith, y)

  handle_connect-IsBounded :
      (w : Bool) (f : Frame L.Header) (c : StompConn)
      → IsBounded cfg c
      → IsBounded cfg (handle_connect L cfg w f c).0
  unfolding handle_connect accept_connect
  handle_connect-IsBounded w f c v =
      let b = (handle_connect L cfg w f c).0 in
      elim (Option-cases (get_heart_beat L f)) [
        | inl n ↦ IsBounded-same cfg c b (ground (arith, n)) (ground (arith, n)) v
        | inr (d, y) ↦
            let (x, z) = get_heart_beat_small f d y in
            elim (handle_connect-beats w f c d y) [
              | inl (p, q) ↦ IsBounded-same cfg c b p q v
              | inr (p, q) ↦ beats-IsBounded d b x z p q
            ]
      ]

  IsBounded-Keeps : Keeps L cfg (λ a b os. IsBounded cfg a → IsBounded cfg b)
  unfolding handle_disconnect handle_send handle_subscribe handle_unsubscribe
      populate_message_id_header close
  IsBounded-Keeps = record {
    nil = λ c v. v;
    trans = λ a b c os ps h k v. k (h v);
    on_connect = λ w f c o. handle_connect-IsBounded w f c;
    on_disconnect =
        λ w f c o. IsBounded-same cfg c (handle_disconnect L w f c).0 (ground arith) (ground arith);
    on_send =
        λ w f c o. IsBounded-same cfg c (handle_send L cfg w f c).0 (ground arith) (ground arith);
    on_subscribe =
        λ f c o. IsBounded-same cfg c (handle_subscribe L f c).0 (ground arith) (ground arith);
    on_unsubscribe = λ w f c o.
        IsBounded-same cfg c (handle_unsubscribe L w f c).0 (ground arith) (ground arith);
    on_error = λ e c v. v;
    on_heart_beat = λ c v. v;
    on_frame = λ f c.
        IsBounded-same cfg c (populate_message_id_header L f c).1 (ground arith) (ground arith);
    on_close = λ c. IsBounded-same cfg c (close L c).0 (ground arith) (ground arith);
  }

  -- Over every history of a connection, a time-out that is set is at least the configured
  -- heart-beat, cut at 999999999 ms, and at most 999999999 ms, for reading and for writing. (The
  -- parser of the heart-beat header gives no more; the configured number of milliseconds does not
  -- wrap round as nanoseconds; it was so before the history, as in a new connection.)
  pub run-IsBounded :
      (is : List (Bool × Input L)) (c : StompConn)
      → IsBounded cfg c
      → IsBounded cfg (run L cfg is c).0
  run-IsBounded is c v = run-keeps L cfg _ IsBounded-Keeps is c v
