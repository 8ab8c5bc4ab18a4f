-- ===== src/ResourceHost/MimeTypes/First.antt =====
-- src/MimeTypes.inc, lines 1 to 153.
use my_power_mirror.Base.{List, [], ◌∷◌, Bytes, codes}

unfoldable pub first_types : List (Bytes × Bytes)
first_types =
    (codes "3dm", codes "x-world/x-3dmf")
    ∷ (codes "3dmf", codes "x-world/x-3dmf")
    ∷ (codes "a", codes "application/octet-stream")
    ∷ (codes "aab", codes "application/x-authorware-bin")
    ∷ (codes "aam", codes "application/x-authorware-map")
    ∷ (codes "aas", codes "application/x-authorware-seg")
    ∷ (codes "abc", codes "text/vnd.abc")
    ∷ (codes "acgi", codes "text/html")
    ∷ (codes "afl", codes "video/animaflex")
    ∷ (codes "ai", codes "application/postscript")
    ∷ (codes "aif", codes "audio/aiff")
    ∷ (codes "aifc", codes "audio/aiff")
    ∷ (codes "aiff", codes "audio/aiff")
    ∷ (codes "aim", codes "application/x-aim")
    ∷ (codes "aip", codes "text/x-audiosoft-intra")
    ∷ (codes "ani", codes "application/x-navi-animation")
    ∷ (codes "aos", codes "application/x-nokia-9000-communicator-add-on-software")
    ∷ (codes "aps", codes "application/mime")
    ∷ (codes "arc", codes "application/octet-stream")
    ∷ (codes "arj", codes "application/arj")
    ∷ (codes "art", codes "image/x-jg")
    ∷ (codes "asf", codes "video/x-ms-asf")
    ∷ (codes "asm", codes "text/x-asm")
    ∷ (codes "asp", codes "text/asp")
    ∷ (codes "asx", codes "video/x-ms-asf")
    ∷ (codes "au", codes "audio/x-au")
    ∷ (codes "avi", codes "video/avi")
    ∷ (codes "avs", codes "video/avs-video")
    ∷ (codes "bcpio", codes "application/x-bcpio")
    ∷ (codes "bin", codes "application/octet-stream")
    ∷ (codes "bm", codes "image/bmp")
    ∷ (codes "bmp", codes "image/bmp")
    ∷ (codes "boo", codes "application/book")
    ∷ (codes "book", codes "application/book")
    ∷ (codes "boz", codes "application/x-bzip2")
    ∷ (codes "bsh", codes "application/x-bsh")
    ∷ (codes "bz", codes "application/x-bzip")
    ∷ (codes "bz2", codes "application/x-bzip2")
    ∷ (codes "c", codes "text/plain")
    ∷ (codes "c++", codes "text/plain")
    ∷ (codes "cat", codes "application/vnd.ms-pki.seccat")
    ∷ (codes "cc", codes "text/plain")
    ∷ (codes "ccad", codes "application/clariscad")
    ∷ (codes "cco", codes "application/x-cocoa")
    ∷ (codes "cdf", codes "application/cdf")
    ∷ (codes "cer", codes "application/pkix-cert")
    ∷ (codes "cer", codes "application/x-x509-ca-cert")
    ∷ (codes "cha", codes "application/x-chat")
    ∷ (codes "chat", codes "application/x-chat")
    ∷ (codes "class", codes "application/java")
    ∷ (codes "com", codes "text/plain")
    ∷ (codes "conf", codes "text/plain")
    ∷ (codes "cpio", codes "application/x-cpio")
    ∷ (codes "cpp", codes "text/x-c")
    ∷ (codes "cpt", codes "application/x-cpt")
    ∷ (codes "crl", codes "application/pkcs-crl")
    ∷ (codes "crt", codes "application/pkix-cert")
    ∷ (codes "csh", codes "text/x-script.csh")
    ∷ (codes "css", codes "text/css")
    ∷ (codes "cxx", codes "text/plain")
    ∷ (codes "dcr", codes "application/x-director")
    ∷ (codes "deepv", codes "application/x-deepv")
    ∷ (codes "def", codes "text/plain")
    ∷ (codes "der", codes "application/x-x509-ca-cert")
    ∷ (codes "dif", codes "video/x-dv")
    ∷ (codes "dir", codes "application/x-director")
    ∷ (codes "dl", codes "video/dl")
    ∷ (codes "doc", codes "application/msword")
    ∷ (codes "docx", codes "application/msword")
    ∷ (codes "dot", codes "application/msword")
    ∷ (codes "dp", codes "application/commonground")
    ∷ (codes "drw", codes "application/drafting")
    ∷ (codes "dump", codes "application/octet-stream")
    ∷ (codes "dv", codes "video/x-dv")
    ∷ (codes "dvi", codes "application/x-dvi")
    ∷ (codes "dwf", codes "model/vnd.dwf")
    ∷ (codes "dwg", codes "image/x-dwg")
    ∷ (codes "dxf", codes "image/x-dwg")
    ∷ (codes "el", codes "text/x-script.elisp")
    ∷ (codes "elc", codes "application/x-elc")
    ∷ (codes "env", codes "application/x-envoy")
    ∷ (codes "eps", codes "application/postscript")
    ∷ (codes "es", codes "application/x-esrehber")
    ∷ (codes "etx", codes "text/x-setext")
    ∷ (codes "evy", codes "application/envoy")
    ∷ (codes "exe", codes "application/octet-stream")
    ∷ (codes "f", codes "text/plain")
    ∷ (codes "f77", codes "text/x-fortran")
    ∷ (codes "f90", codes "text/plain")
    ∷ (codes "fdf", codes "application/vnd.fdf")
    ∷ (codes "fif", codes "image/fif")
    ∷ (codes "fli", codes "video/fli")
    ∷ (codes "flo", codes "image/florian")
    ∷ (codes "flx", codes "text/vnd.fmi.flexstor")
    ∷ (codes "fmf", codes "video/x-atomic3d-feature")
    ∷ (codes "for", codes "text/plain")
    ∷ (codes "fpx", codes "image/vnd.fpx")
    ∷ (codes "frl", codes "application/freeloader")
    ∷ (codes "funk", codes "audio/make")
    ∷ (codes "g", codes "text/plain")
    ∷ (codes "g3", codes "image/g3fax")
    ∷ (codes "gif", codes "image/gif")
    ∷ (codes "gl", codes "video/gl")
    ∷ (codes "gsd", codes "audio/x-gsm")
    ∷ (codes "gsm", codes "audio/x-gsm")
    ∷ (codes "gsp", codes "application/x-gsp")
    ∷ (codes "gss", codes "application/x-gss")
    ∷ (codes "gtar", codes "application/x-gtar")
    ∷ (codes "gz", codes "application/x-gzip")
    ∷ (codes "gzip", codes "application/x-gzip")
    ∷ (codes "h", codes "text/plain")
    ∷ (codes "hdf", codes "application/x-hdf")
    ∷ (codes "help", codes "application/x-helpfile")
    ∷ (codes "hgl", codes "application/vnd.hp-hpgl")
    ∷ (codes "hh", codes "text/plain")
    ∷ (codes "hlb", codes "text/x-script")
    ∷ (codes "hlp", codes "application/x-helpfile")
    ∷ (codes "hpg", codes "application/vnd.hp-hpgl")
    ∷ (codes "hpgl", codes "application/vnd.hp-hpgl")
    ∷ (codes "hqx", codes "application/binhex")
    ∷ (codes "hta", codes "application/hta")
    ∷ (codes "htc", codes "text/x-component")
    ∷ (codes "htm", codes "text/html")
    ∷ (codes "html", codes "text/html")
    ∷ (codes "htmls", codes "text/html")
    ∷ (codes "htt", codes "text/webviewhtml")
    ∷ (codes "htx", codes "text/html")
    ∷ (codes "ice", codes "x-conference/x-cooltalk")
    ∷ (codes "ico", codes "image/x-icon")
    ∷ (codes "idc", codes "text/plain")
    ∷ (codes "ief", codes "image/ief")
    ∷ (codes "iefs", codes "image/ief")
    ∷ (codes "iges", codes "application/iges")
    ∷ (codes "iges", codes "model/iges")
    ∷ (codes "igs", codes "model/iges")
    ∷ (codes "ima", codes "application/x-ima")
    ∷ (codes "imap", codes "application/x-httpd-imap")
    ∷ (codes "inf", codes "application/inf")
    ∷ (codes "ins", codes "application/x-internett-signup")
    ∷ (codes "ip", codes "application/x-ip2")
    ∷ (codes "isu", codes "video/x-isvideo")
    ∷ (codes "it", codes "audio/it")
    ∷ (codes "iv", codes "application/x-inventor")
    ∷ (codes "ivr", codes "i-world/i-vrml")
    ∷ (codes "ivy", codes "application/x-livescreen")
    ∷ (codes "jam", codes "audio/x-jam")
    ∷ (codes "jav", codes "text/plain")
    ∷ (codes "java", codes "text/plain")
    ∷ (codes "jcm", codes "application/x-java-commerce")
    ∷ (codes "jfif", codes "image/jpeg")
    ∷ (codes "jfif-tbnl", codes "image/jpeg")
    ∷ (codes "jpe", codes "image/jpeg")
    ∷ (codes "jpeg", codes "image/jpeg")
    ∷ []
