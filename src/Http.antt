-- ===== src/Http.antt =====
-- HTTP between the parts of the program: the client of pkg/network/httpclient.go. What travels on a
-- connection is a parameter.
pub mod Client
pub mod ClientLaws
