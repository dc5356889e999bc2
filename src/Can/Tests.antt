-- ===== src/Can/Tests.antt =====
-- Runs of the COB-ID functions, and each theorem on them at a concrete frame.
use socanmatic.Base.{◌≡◌, refl}
use socanmatic.Can.{CanFrame, frame_func, frame_node, zero_frame}

-- An SDO response of node 5.
abbrev response : CanFrame
response = record zero_frame { can_id = 0x585 }

func_of_response : frame_func response ≡ 0x580
unfolding frame_func
func_of_response = refl

node_of_response : frame_node response ≡ 5
unfolding frame_node
node_of_response = refl
