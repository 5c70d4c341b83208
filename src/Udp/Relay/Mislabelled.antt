-- ===== src/Udp/Relay/Mislabelled.antt =====
-- What a client is told of the responses of its second target, in handle_udp_packet and
-- listen_for_responses.
use peregrine_proxy.Udp.Relay.{Relay}
