-- ===== src/FieldPaths/Network.antt =====
-- src/pipeline/field_paths.rs: the candidate paths of the columns for addresses, ports, protocol, byte counters and interfaces.
use Prim.Native.String.{String}
use mathlib.Core.List.{List, [], ◌∷◌}

abbrev pub src_ip : List String
src_ip =
    "srcip" ∷ "src_ip" ∷ "source_ip" ∷ "source_address" ∷ "sourceip" ∷ "sourceIpAddress" ∷ "src"
    ∷ "ip" ∷ "IP" ∷ "client" ∷ "host_ip" ∷ "ip_address" ∷ "proxy_ip" ∷ "xff_address" ∷ "locip"
    ∷ "ipaddr" ∷ "ip.address" ∷ "LocalIp" ∷ "identSrc" ∷ "assignip" ∷ "client_dyn_ip"
    ∷ "alert.src_ip" ∷ "win.eventdata.ipAddress" ∷ "win.eventdata.sourceAddress"
    ∷ "win.eventdata.IpAddress" ∷ "aws.sourceIPAddress" ∷ "aws.requestParameters.ipAddress"
    ∷ "aws.source_ip_address"
    ∷ "aws.service.action.networkConnectionAction.remoteIpDetails.ipAddressV4"
    ∷ "aws.service.action.portProbeAction.portProbeDetails.remoteIpDetails.ipAddressV4" ∷ "srcAddr"
    ∷ "gcp.protoPayload.requestMetadata.callerIp" ∷ "azure.callerIpAddress"
    ∷ "azure.properties.ipAddress" ∷ "azure.properties.clientIP" ∷ "okta.client.ipAddress"
    ∷ "office365.ActorIpAddress" ∷ "office365.ClientIP" ∷ "office365.ClientIPAddress"
    ∷ "github.actor_ip" ∷ "zeek.id.orig_h" ∷ "remip" ∷ "tunnelip" ∷ "forwardedfor"
    ∷ "x_forwarded_for" ∷ "cs1" ∷ "aws.srcaddr" ∷ "aws.httpRequest.clientIp" ∷ "aws.remote_ip"
    ∷ "aws.summary.IP" ∷ "gcp.jsonPayload.sourceIP" ∷ "src_endpoint.ip" ∷ "botnetip"
    ∷ "win.eventdata.sourceIp" ∷ "mariadb.ip" ∷ "forwarded_ip" ∷ "network.forwarded_ip_1" ∷ []

abbrev pub dst_ip : List String
dst_ip =
    "dstip" ∷ "dst_ip" ∷ "dest_ip" ∷ "destination_ip" ∷ "destip" ∷ "dstname"
    ∷ "destinationIpAddress" ∷ "destination_address" ∷ "dst" ∷ "dstcip" ∷ "dhost" ∷ "alert.dest_ip"
    ∷ "win.eventdata.destinationIp" ∷ "win.eventdata.DestinationIp" ∷ "dstAddr"
    ∷ "aws.service.action.networkConnectionAction.localIpDetails.ipAddressV4" ∷ "zeek.id.resp_h"
    ∷ "aws.dstaddr" ∷ "qualysguard.ip" ∷ []

abbrev pub src_port : List String
src_port =
    "srcport" ∷ "src_port" ∷ "source_port" ∷ "locport" ∷ "LocalPort" ∷ "s_port" ∷ "spt" ∷ "sport"
    ∷ "alert.src_port" ∷ "win.eventdata.ipPort" ∷ "win.eventdata.IpPort" ∷ "cs2" ∷ "srcPort"
    ∷ "aws.service.action.networkConnectionAction.remotePortDetails.port" ∷ "zeek.id.orig_p"
    ∷ "aws.srcport" ∷ "src_endpoint.port" ∷ []

abbrev pub dst_port : List String
dst_port =
    "dstport" ∷ "dst_port" ∷ "dest_port" ∷ "destination_port" ∷ "remport" ∷ "dpt" ∷ "dport"
    ∷ "alert.dest_port" ∷ "win.eventdata.destinationPort" ∷ "win.eventdata.DestinationPort"
    ∷ "dstPort" ∷ "aws.service.action.networkConnectionAction.localPortDetails.port"
    ∷ "zeek.id.resp_p" ∷ "aws.dstport" ∷ "dst_endpoint.port" ∷ []

abbrev pub nat_src_ip : List String
nat_src_ip =
    "nat_srcip" ∷ "nat_src_ip" ∷ "nat_source_ip" ∷ "transip" ∷ "mapped_src_ip" ∷ "xlatesrc"
    ∷ "tran_src_ip" ∷ []

abbrev pub nat_dst_ip : List String
nat_dst_ip =
    "nat_dstip" ∷ "nat_dst_ip" ∷ "nat_destination_ip" ∷ "nat_dest_ip" ∷ "mapped_dst_ip" ∷ "xlatedst"
    ∷ "tran_dst_ip" ∷ []

abbrev pub nat_src_port : List String
nat_src_port =
    "nat_srcport" ∷ "nat_src_port" ∷ "nat_source_port" ∷ "transport" ∷ "mapped_src_port"
    ∷ "xlatesport" ∷ "tran_src_port" ∷ []

abbrev pub nat_dst_port : List String
nat_dst_port =
    "nat_dstport" ∷ "nat_dst_port" ∷ "nat_destination_port" ∷ "nat_dest_port" ∷ "mapped_dst_port"
    ∷ "xlatedport" ∷ "tran_dst_port" ∷ []

abbrev pub protocol : List String
protocol =
    "protocol" ∷ "proto" ∷ "transport" ∷ "protocol_id" ∷ "Protocol" ∷ "ip_protocol" ∷ "alert.proto"
    ∷ "win.eventdata.protocol" ∷ "network_forwarded_protocol" ∷ "aws.protocol" ∷ "protocol_name"
    ∷ []

abbrev pub bytes_in : List String
bytes_in =
    "rcvdbyte" ∷ "bytes_recv" ∷ "bytes_in" ∷ "bytesIn" ∷ "bytes" ∷ "BytesReceived"
    ∷ "bytes_received" ∷ "bytes_from_server" ∷ "aws.additionalEventData.bytesTransferredIn"
    ∷ "aws.bytes" ∷ "recv_bytes" ∷ []

abbrev pub bytes_out : List String
bytes_out =
    "sentbyte" ∷ "bytes_sent" ∷ "bytes_out" ∷ "bytesOut" ∷ "sent_bytes" ∷ "BytesSent"
    ∷ "bytes_from_client" ∷ "aws.additionalEventData.bytesTransferredOut" ∷ []

abbrev pub iface_in : List String
iface_in =
    "srcintf" ∷ "inbound_interface" ∷ "interface" ∷ "packet_incoming_interface" ∷ "source_zone"
    ∷ "srczone" ∷ "in_interface" ∷ "inzone" ∷ "ifname" ∷ "if_name" ∷ "interfaceId" ∷ "zeek._path"
    ∷ "lanin" ∷ []

abbrev pub iface_out : List String
iface_out =
    "dstintf" ∷ "outbound_interface" ∷ "destination_zone" ∷ "dstzone" ∷ "out_interface" ∷ "outzone"
    ∷ "outintf" ∷ "dstinterface" ∷ "lanout" ∷ []
