-- ===== src/Net/Queue/Tests.antt =====
-- The theorem on the queue at one buffer.
use c_osiris.Base.{◌≡◌, refl, none, [], ◌∷◌}
use c_osiris.Net.Queue.{NetBuf, net_buf_alloc, iface_add_ip, add_first}

abbrev first : NetBuf
first = record { nic = 0; size = 60; id = 1 }

abbrev second : NetBuf
second = record { nic = 0; size = 42; id = 2 }

too_big : net_buf_alloc 2001 0 1 [] ≡ none
unfolding net_buf_alloc
too_big = refl

full_interface : iface_add_ip (1 ∷ 2 ∷ 3 ∷ 4 ∷ []) 5 ≡ none
unfolding add_first
full_interface = refl
