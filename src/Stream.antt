-- ===== src/Stream.antt =====
-- Scripts/poly_ws.py and Scripts/limitless_ws.py: the order books that the exchanges push, and the
-- positions that Limitless pushes. A handler runs on the socket's thread under the client's lock, so
-- each event is one step.
pub mod Subs
pub mod Poly
pub mod Lim
mod Tests
