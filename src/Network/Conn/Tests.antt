-- ===== src/Network/Conn/Tests.antt =====
-- A connection with a queue of two messages.
use czx.Base.{steps, ◌≡◌, refl, true, false, [], ◌∷◌, some, arith}
use czx.Base.Int.{pos}
use czx.Network.Parser.{MessageParserConf}
use czx.Network.Conn.{TcpConn, ranging, new_tcp_conn, with_metrics, closes, run_from}
use czx.Network.Conn.Order.{IsSound, payloads}
use czx.Network.Conn.Close.{Flushed, writing_out, close-Flushed}

abbrev parse : MessageParserConf
parse = record { msg_length_type = 2; msg_min_size = 1; msg_max_size = 4096; little_endian = false }

abbrev fresh : TcpConn
fresh = with_metrics (new_tcp_conn (pos 2) parse)

abbrev one_queued : TcpConn
one_queued = record {
  pending_write = 2;
  queue = some (7 ∷ []) ∷ [];
  queue_closed = false;
  done = false;
  net_closed = false;
  metrics = true;
  parse = parse;
  writer = ranging;
  accepted = (5 ∷ []) ∷ (7 ∷ []) ∷ [];
  sent = (5 ∷ []) ∷ [];
}

one_queued-IsSound : IsSound one_queued
unfolding payloads
one_queued-IsSound = record {
  closed_done = λ h. absurd (ground arith);
  bounded = omega arith;
  conserved = refl;
  plain = λ h. tt;
  measured = refl;
}

close-Flushed_example :
    (c : TcpConn) × (run_from (steps one_queued) (closes ∷ writing_out one_queued.queue) ≡ steps c)
    × Flushed one_queued c
close-Flushed_example =
    close-Flushed one_queued one_queued-IsSound refl refl refl (λ e. absurd (omega arith))
