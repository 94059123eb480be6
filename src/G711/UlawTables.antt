-- ===== src/G711/UlawTables.antt =====
-- The three lookup tables of mpf/codecs/g711/ulaw.go, row by row as the source lays them out.
use go_mrcp.Prelude.{[], ◌∷◌}
use go_mrcp.Prelude.Words.{neg}
use go_mrcp.G711.Table.{Table}

abbrev pub ulaw_segment : Table
ulaw_segment =
    (0 ∷ 0 ∷ 1 ∷ 1 ∷ 2 ∷ 2 ∷ 2 ∷ 2 ∷ 3 ∷ 3 ∷ 3 ∷ 3 ∷ 3 ∷ 3 ∷ 3 ∷ 3 ∷ [])
    ∷ (4 ∷ 4 ∷ 4 ∷ 4 ∷ 4 ∷ 4 ∷ 4 ∷ 4 ∷ 4 ∷ 4 ∷ 4 ∷ 4 ∷ 4 ∷ 4 ∷ 4 ∷ 4 ∷ [])
    ∷ (5 ∷ 5 ∷ 5 ∷ 5 ∷ 5 ∷ 5 ∷ 5 ∷ 5 ∷ 5 ∷ 5 ∷ 5 ∷ 5 ∷ 5 ∷ 5 ∷ 5 ∷ 5 ∷ [])
    ∷ (5 ∷ 5 ∷ 5 ∷ 5 ∷ 5 ∷ 5 ∷ 5 ∷ 5 ∷ 5 ∷ 5 ∷ 5 ∷ 5 ∷ 5 ∷ 5 ∷ 5 ∷ 5 ∷ [])
    ∷ (6 ∷ 6 ∷ 6 ∷ 6 ∷ 6 ∷ 6 ∷ 6 ∷ 6 ∷ 6 ∷ 6 ∷ 6 ∷ 6 ∷ 6 ∷ 6 ∷ 6 ∷ 6 ∷ [])
    ∷ (6 ∷ 6 ∷ 6 ∷ 6 ∷ 6 ∷ 6 ∷ 6 ∷ 6 ∷ 6 ∷ 6 ∷ 6 ∷ 6 ∷ 6 ∷ 6 ∷ 6 ∷ 6 ∷ [])
    ∷ (6 ∷ 6 ∷ 6 ∷ 6 ∷ 6 ∷ 6 ∷ 6 ∷ 6 ∷ 6 ∷ 6 ∷ 6 ∷ 6 ∷ 6 ∷ 6 ∷ 6 ∷ 6 ∷ [])
    ∷ (6 ∷ 6 ∷ 6 ∷ 6 ∷ 6 ∷ 6 ∷ 6 ∷ 6 ∷ 6 ∷ 6 ∷ 6 ∷ 6 ∷ 6 ∷ 6 ∷ 6 ∷ 6 ∷ [])
    ∷ (7 ∷ 7 ∷ 7 ∷ 7 ∷ 7 ∷ 7 ∷ 7 ∷ 7 ∷ 7 ∷ 7 ∷ 7 ∷ 7 ∷ 7 ∷ 7 ∷ 7 ∷ 7 ∷ [])
    ∷ (7 ∷ 7 ∷ 7 ∷ 7 ∷ 7 ∷ 7 ∷ 7 ∷ 7 ∷ 7 ∷ 7 ∷ 7 ∷ 7 ∷ 7 ∷ 7 ∷ 7 ∷ 7 ∷ [])
    ∷ (7 ∷ 7 ∷ 7 ∷ 7 ∷ 7 ∷ 7 ∷ 7 ∷ 7 ∷ 7 ∷ 7 ∷ 7 ∷ 7 ∷ 7 ∷ 7 ∷ 7 ∷ 7 ∷ [])
    ∷ (7 ∷ 7 ∷ 7 ∷ 7 ∷ 7 ∷ 7 ∷ 7 ∷ 7 ∷ 7 ∷ 7 ∷ 7 ∷ 7 ∷ 7 ∷ 7 ∷ 7 ∷ 7 ∷ [])
    ∷ (7 ∷ 7 ∷ 7 ∷ 7 ∷ 7 ∷ 7 ∷ 7 ∷ 7 ∷ 7 ∷ 7 ∷ 7 ∷ 7 ∷ 7 ∷ 7 ∷ 7 ∷ 7 ∷ [])
    ∷ (7 ∷ 7 ∷ 7 ∷ 7 ∷ 7 ∷ 7 ∷ 7 ∷ 7 ∷ 7 ∷ 7 ∷ 7 ∷ 7 ∷ 7 ∷ 7 ∷ 7 ∷ 7 ∷ [])
    ∷ (7 ∷ 7 ∷ 7 ∷ 7 ∷ 7 ∷ 7 ∷ 7 ∷ 7 ∷ 7 ∷ 7 ∷ 7 ∷ 7 ∷ 7 ∷ 7 ∷ 7 ∷ 7 ∷ [])
    ∷ (7 ∷ 7 ∷ 7 ∷ 7 ∷ 7 ∷ 7 ∷ 7 ∷ 7 ∷ 7 ∷ 7 ∷ 7 ∷ 7 ∷ 7 ∷ 7 ∷ 7 ∷ 7 ∷ [])
    ∷ []

abbrev pub ulaw2lpcm : Table
ulaw2lpcm =
    (neg 32124
      ∷ neg 31100
      ∷ neg 30076
      ∷ neg 29052
      ∷ neg 28028
      ∷ neg 27004
      ∷ neg 25980
      ∷ neg 24956
      ∷ [])
    ∷ (neg 23932
        ∷ neg 22908
        ∷ neg 21884
        ∷ neg 20860
        ∷ neg 19836
        ∷ neg 18812
        ∷ neg 17788
        ∷ neg 16764
        ∷ [])
    ∷ (neg 15996
        ∷ neg 15484
        ∷ neg 14972
        ∷ neg 14460
        ∷ neg 13948
        ∷ neg 13436
        ∷ neg 12924
        ∷ neg 12412
        ∷ [])
    ∷ (neg 11900
        ∷ neg 11388
        ∷ neg 10876
        ∷ neg 10364
        ∷ neg 9852
        ∷ neg 9340
        ∷ neg 8828
        ∷ neg 8316
        ∷ [])
    ∷ (neg 7932 ∷ neg 7676 ∷ neg 7420 ∷ neg 7164 ∷ neg 6908 ∷ neg 6652 ∷ neg 6396 ∷ neg 6140 ∷ [])
    ∷ (neg 5884 ∷ neg 5628 ∷ neg 5372 ∷ neg 5116 ∷ neg 4860 ∷ neg 4604 ∷ neg 4348 ∷ neg 4092 ∷ [])
    ∷ (neg 3900 ∷ neg 3772 ∷ neg 3644 ∷ neg 3516 ∷ neg 3388 ∷ neg 3260 ∷ neg 3132 ∷ neg 3004 ∷ [])
    ∷ (neg 2876 ∷ neg 2748 ∷ neg 2620 ∷ neg 2492 ∷ neg 2364 ∷ neg 2236 ∷ neg 2108 ∷ neg 1980 ∷ [])
    ∷ (neg 1884 ∷ neg 1820 ∷ neg 1756 ∷ neg 1692 ∷ neg 1628 ∷ neg 1564 ∷ neg 1500 ∷ neg 1436 ∷ [])
    ∷ (neg 1372 ∷ neg 1308 ∷ neg 1244 ∷ neg 1180 ∷ neg 1116 ∷ neg 1052 ∷ neg 988 ∷ neg 924 ∷ [])
    ∷ (neg 876 ∷ neg 844 ∷ neg 812 ∷ neg 780 ∷ neg 748 ∷ neg 716 ∷ neg 684 ∷ neg 652 ∷ [])
    ∷ (neg 620 ∷ neg 588 ∷ neg 556 ∷ neg 524 ∷ neg 492 ∷ neg 460 ∷ neg 428 ∷ neg 396 ∷ [])
    ∷ (neg 372 ∷ neg 356 ∷ neg 340 ∷ neg 324 ∷ neg 308 ∷ neg 292 ∷ neg 276 ∷ neg 260 ∷ [])
    ∷ (neg 244 ∷ neg 228 ∷ neg 212 ∷ neg 196 ∷ neg 180 ∷ neg 164 ∷ neg 148 ∷ neg 132 ∷ [])
    ∷ (neg 120 ∷ neg 112 ∷ neg 104 ∷ neg 96 ∷ neg 88 ∷ neg 80 ∷ neg 72 ∷ neg 64 ∷ [])
    ∷ (neg 56 ∷ neg 48 ∷ neg 40 ∷ neg 32 ∷ neg 24 ∷ neg 16 ∷ neg 8 ∷ 0 ∷ [])
    ∷ (32124 ∷ 31100 ∷ 30076 ∷ 29052 ∷ 28028 ∷ 27004 ∷ 25980 ∷ 24956 ∷ [])
    ∷ (23932 ∷ 22908 ∷ 21884 ∷ 20860 ∷ 19836 ∷ 18812 ∷ 17788 ∷ 16764 ∷ [])
    ∷ (15996 ∷ 15484 ∷ 14972 ∷ 14460 ∷ 13948 ∷ 13436 ∷ 12924 ∷ 12412 ∷ [])
    ∷ (11900 ∷ 11388 ∷ 10876 ∷ 10364 ∷ 9852 ∷ 9340 ∷ 8828 ∷ 8316 ∷ [])
    ∷ (7932 ∷ 7676 ∷ 7420 ∷ 7164 ∷ 6908 ∷ 6652 ∷ 6396 ∷ 6140 ∷ [])
    ∷ (5884 ∷ 5628 ∷ 5372 ∷ 5116 ∷ 4860 ∷ 4604 ∷ 4348 ∷ 4092 ∷ [])
    ∷ (3900 ∷ 3772 ∷ 3644 ∷ 3516 ∷ 3388 ∷ 3260 ∷ 3132 ∷ 3004 ∷ [])
    ∷ (2876 ∷ 2748 ∷ 2620 ∷ 2492 ∷ 2364 ∷ 2236 ∷ 2108 ∷ 1980 ∷ [])
    ∷ (1884 ∷ 1820 ∷ 1756 ∷ 1692 ∷ 1628 ∷ 1564 ∷ 1500 ∷ 1436 ∷ [])
    ∷ (1372 ∷ 1308 ∷ 1244 ∷ 1180 ∷ 1116 ∷ 1052 ∷ 988 ∷ 924 ∷ [])
    ∷ (876 ∷ 844 ∷ 812 ∷ 780 ∷ 748 ∷ 716 ∷ 684 ∷ 652 ∷ [])
    ∷ (620 ∷ 588 ∷ 556 ∷ 524 ∷ 492 ∷ 460 ∷ 428 ∷ 396 ∷ [])
    ∷ (372 ∷ 356 ∷ 340 ∷ 324 ∷ 308 ∷ 292 ∷ 276 ∷ 260 ∷ [])
    ∷ (244 ∷ 228 ∷ 212 ∷ 196 ∷ 180 ∷ 164 ∷ 148 ∷ 132 ∷ [])
    ∷ (120 ∷ 112 ∷ 104 ∷ 96 ∷ 88 ∷ 80 ∷ 72 ∷ 64 ∷ [])
    ∷ (56 ∷ 48 ∷ 40 ∷ 32 ∷ 24 ∷ 16 ∷ 8 ∷ 0 ∷ [])
    ∷ []

abbrev pub ulaw2alaw : Table
ulaw2alaw =
    (42 ∷ 43 ∷ 40 ∷ 41 ∷ 46 ∷ 47 ∷ 44 ∷ 45 ∷ 34 ∷ 35 ∷ 32 ∷ 33 ∷ 38 ∷ 39 ∷ 36 ∷ 37 ∷ [])
    ∷ (58 ∷ 59 ∷ 56 ∷ 57 ∷ 62 ∷ 63 ∷ 60 ∷ 61 ∷ 50 ∷ 51 ∷ 48 ∷ 49 ∷ 54 ∷ 55 ∷ 52 ∷ 53 ∷ [])
    ∷ (10 ∷ 11 ∷ 8 ∷ 9 ∷ 14 ∷ 15 ∷ 12 ∷ 13 ∷ 2 ∷ 3 ∷ 0 ∷ 1 ∷ 6 ∷ 7 ∷ 4 ∷ 26 ∷ [])
    ∷ (27 ∷ 24 ∷ 25 ∷ 30 ∷ 31 ∷ 28 ∷ 29 ∷ 18 ∷ 19 ∷ 16 ∷ 17 ∷ 22 ∷ 23 ∷ 20 ∷ 21 ∷ 106 ∷ [])
    ∷ (104 ∷ 105 ∷ 110 ∷ 111 ∷ 108 ∷ 109 ∷ 98 ∷ 99 ∷ 96 ∷ 97 ∷ 102 ∷ 103 ∷ 100 ∷ 101 ∷ 122 ∷ 120
        ∷ [])
    ∷ (126 ∷ 127 ∷ 124 ∷ 125 ∷ 114 ∷ 115 ∷ 112 ∷ 113 ∷ 118 ∷ 119 ∷ 116 ∷ 117 ∷ 75 ∷ 73 ∷ 79 ∷ 77
        ∷ [])
    ∷ (66 ∷ 67 ∷ 64 ∷ 65 ∷ 70 ∷ 71 ∷ 68 ∷ 69 ∷ 90 ∷ 91 ∷ 88 ∷ 89 ∷ 94 ∷ 95 ∷ 92 ∷ 93 ∷ [])
    ∷ (82 ∷ 82 ∷ 83 ∷ 83 ∷ 80 ∷ 80 ∷ 81 ∷ 81 ∷ 86 ∷ 86 ∷ 87 ∷ 87 ∷ 84 ∷ 84 ∷ 85 ∷ 85 ∷ [])
    ∷ (170 ∷ 171 ∷ 168 ∷ 169 ∷ 174 ∷ 175 ∷ 172 ∷ 173 ∷ 162 ∷ 163 ∷ 160 ∷ 161 ∷ 166 ∷ 167 ∷ 164 ∷ 165
        ∷ [])
    ∷ (186 ∷ 187 ∷ 184 ∷ 185 ∷ 190 ∷ 191 ∷ 188 ∷ 189 ∷ 178 ∷ 179 ∷ 176 ∷ 177 ∷ 182 ∷ 183 ∷ 180 ∷ 181
        ∷ [])
    ∷ (138 ∷ 139 ∷ 136 ∷ 137 ∷ 142 ∷ 143 ∷ 140 ∷ 141 ∷ 130 ∷ 131 ∷ 128 ∷ 129 ∷ 134 ∷ 135 ∷ 132 ∷ 154
        ∷ [])
    ∷ (155 ∷ 152 ∷ 153 ∷ 158 ∷ 159 ∷ 156 ∷ 157 ∷ 146 ∷ 147 ∷ 144 ∷ 145 ∷ 150 ∷ 151 ∷ 148 ∷ 149 ∷ 234
        ∷ [])
    ∷ (232 ∷ 233 ∷ 238 ∷ 239 ∷ 236 ∷ 237 ∷ 226 ∷ 227 ∷ 224 ∷ 225 ∷ 230 ∷ 231 ∷ 228 ∷ 229 ∷ 250 ∷ 248
        ∷ [])
    ∷ (254 ∷ 255 ∷ 252 ∷ 253 ∷ 242 ∷ 243 ∷ 240 ∷ 241 ∷ 246 ∷ 247 ∷ 244 ∷ 245 ∷ 203 ∷ 201 ∷ 207 ∷ 205
        ∷ [])
    ∷ (194 ∷ 195 ∷ 192 ∷ 193 ∷ 198 ∷ 199 ∷ 196 ∷ 197 ∷ 218 ∷ 219 ∷ 216 ∷ 217 ∷ 222 ∷ 223 ∷ 220 ∷ 221
        ∷ [])
    ∷ (210 ∷ 210 ∷ 211 ∷ 211 ∷ 208 ∷ 208 ∷ 209 ∷ 209 ∷ 214 ∷ 214 ∷ 215 ∷ 215 ∷ 212 ∷ 212 ∷ 213 ∷ 213
        ∷ [])
    ∷ []
