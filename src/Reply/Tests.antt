-- ===== src/Reply/Tests.antt =====
-- A reply on the wire, and its theorem at a concrete input.
use as_proxyd.Common.{[], ◌∷◌, ◌≡◌, refl, some, codes}
use as_proxyd.Reply.{Reply, ok, status_value, to_buffers}
use as_proxyd.Reply.Wire.{send, read_reply, read_reply-to_buffers}

abbrev alive : Reply
alive = record {
  status = ok;
  headers = record { name = codes "Content-Length"; value = codes "2" } ∷ [];
  content = codes "\r\n";
}

alive_sent : send (to_buffers alive) ≡ codes "HTTP/1.1 200 OK\r\nContent-Length: 2\r\n\r\n\r\n"
unfolding send to_buffers as_proxyd.Reply.to_buffer
alive_sent = refl

read_reply-to_buffers_example :
    read_reply (send (to_buffers alive)) ≡ some (200, alive.headers, alive.content)
unfolding status_value
read_reply-to_buffers_example = read_reply-to_buffers alive ((refl, refl, refl), tt)
