-- ===== src/Heartbeat/Signing.antt =====
-- What a heartbeat of internal/app/heartbeat.go is signed for.
use authrim_wordwarden.Prelude.{◌≡◌, Text, All}
use authrim_wordwarden.GoText.Splitting.{split, join, Lacks, split-join}
use authrim_wordwarden.Hmac.Canonical.{Crypto}
use authrim_wordwarden.Heartbeat.{
  HeartbeatClient, heartbeat_algorithm, heartbeat_lines, build_heartbeat_canonical,
}

-- The text that a heartbeat signs splits at its newlines into the algorithm and the signed fields,
-- in order, where no field holds a newline.
split-heartbeat_canonical :
    (crypto : Crypto) (c : HeartbeatClient) (timestamp body : Text)
    → All (Lacks b'\n') (heartbeat_lines crypto c timestamp body)
    → split b'\n' (build_heartbeat_canonical crypto c timestamp body)
      ≡ heartbeat_lines crypto c timestamp body
unfolding build_heartbeat_canonical join
split-heartbeat_canonical crypto c timestamp body h = split-join b'\n' heartbeat_algorithm _ h
